-- ===== src/Stdlib/Malloc/Tests.antt =====
-- Runs of malloc, and its theorems at concrete arenas.
use aos_kernel.Base.{ℕ, ◌+◌, ◌<◌, ◌≡◌, refl, List, [], ◌∷◌, arith, inl}
use aos_kernel.Stdlib.Malloc.{Arena, mmap, malloc, malloc_all}
use aos_kernel.Stdlib.Malloc.Blocks.{IsValid, Apart, malloc_all-Apart}
use aos_kernel.Stdlib.Malloc.Overlap.{malloc_overlap}

-- A program before its first request.
abbrev fresh : Arena
fresh = record { bump = 0; space_remaining = 0; v_heap = 0x10000 }

fresh-IsValid : IsValid fresh
fresh-IsValid = record { region = inl refl; aligned = refl; paged = refl; started = omega arith }

abbrev lines : List ℕ
lines = 255 ∷ 2000 ∷ 16 ∷ []

malloc_lines : malloc_all lines fresh ≡ (0x10000, 255) ∷ (0x10800, 2000) ∷ (0x10fd0, 16) ∷ []
unfolding malloc_all malloc mmap
malloc_lines = refl

malloc_all-Apart_example : Apart 0x10000 (malloc_all lines fresh)
malloc_all-Apart_example = malloc_all-Apart lines fresh fresh-IsValid (omega arith) (omega arith)

left_over : (malloc 4096 fresh).1.space_remaining < 16
unfolding malloc mmap
left_over = omega arith

malloc_overlap_example :
    let p = (malloc 4096 fresh).0 in
    let q = (malloc 16 (malloc 4096 fresh).1).0 in (p < q) × (q < p + 4096)
malloc_overlap_example =
    malloc_overlap 4096 16 fresh (omega arith) (omega arith) (omega arith) (omega arith)
      (omega arith) (omega arith) left_over
