-- ===== src/Memory.antt =====
-- Memory as the C code sees it: a byte at each address.
pub mod Word
pub mod Text
use aos_kernel.Base.{ℕ, ◌==◌, if◌then◌else◌}

abbrev pub Mem : Type 0
Mem = ℕ → ℕ

-- `*(uint8_t*)a = v`.
abbrev pub store : Mem → ℕ → ℕ → Mem
store m a v x = if x == a then v else m x
