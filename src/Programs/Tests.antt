-- ===== src/Programs/Tests.antt =====
-- The loader on a small program.
use aos_kernel.Base.{List, [], ◌∷◌, arith}
use aos_kernel.Programs.Load.{Phdr, load_segments}
use aos_kernel.Programs.Load.Cover.{AreCovers, load_segments-AreCovers}

-- A code segment of 5000 bytes behind a header that is not loaded.
abbrev program : List Phdr
program =
    record { p_type = 6; p_flags = 4; p_offset = 64; p_vaddr = 0x400040; p_memsz = 0x1c0 }
    ∷ record { p_type = 1; p_flags = 5; p_offset = 0x1000; p_vaddr = 0x401000; p_memsz = 5000 }
    ∷ []

load_segments-AreCovers_example : AreCovers program (load_segments 3 program)
load_segments-AreCovers_example =
    load_segments-AreCovers 3 program
      (omega arith, omega arith, omega arith, (omega arith, omega arith, omega arith, tt))
