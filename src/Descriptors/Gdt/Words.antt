-- ===== src/Descriptors/Gdt/Words.antt =====
-- The descriptors as the words that the processor reads.
use aos_kernel.Base.{ℕ, ◌+◌, ◌*◌, ◌^◌}
use aos_kernel.Memory.{Mem}
use aos_kernel.Descriptors.Gdt.{Gdt}

-- The base of a system descriptor, read from its bytes.
abbrev pub base_of : Mem → ℕ → ℕ
base_of m offset =
    m (offset + 2)
    + m (offset + 3) * 2 ^ 8
    + m (offset + 4) * 2 ^ 16
    + m (offset + 7) * 2 ^ 24
    + m (offset + 8) * 2 ^ 32
    + m (offset + 9) * 2 ^ 40
    + m (offset + 10) * 2 ^ 48
    + m (offset + 11) * 2 ^ 56
