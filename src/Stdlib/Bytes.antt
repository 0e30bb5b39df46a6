-- ===== src/Stdlib/Bytes.antt =====
-- memset and memcpy of stdlib/mem.c. Both loops run while `progress < size`, so the count of
-- rounds left is `size - progress`.
pub mod Laws
mod Tests
use aos_kernel.Base.{ℕ, zero, suc, ◌+◌, ◌%◌, ◌^◌}
use aos_kernel.Memory.{Mem, store}

-- `(uint64_t)start + progress`
abbrev pub add64 : ℕ → ℕ → ℕ
add64 a b = (a + b) % 2 ^ 64

unfoldable pub memset_loop : ℕ → ℕ → ℕ → Mem → Mem
memset_loop zero start progress m = m
memset_loop (suc left) start progress m =
    memset_loop left start (progress + 1) (store m (add64 start progress) 0)

-- `memset(start, size)` of this library takes no value: it writes zeros.
unfoldable pub memset : ℕ → ℕ → Mem → Mem
memset start size m = memset_loop size start 0 m

pub memcpy_loop : ℕ → ℕ → ℕ → ℕ → Mem → Mem
memcpy_loop zero dest src progress m = m
memcpy_loop (suc left) dest src progress m =
    memcpy_loop left dest src (progress + 1)
      (store m (add64 dest progress) (m (add64 src progress)))

pub memcpy : ℕ → ℕ → ℕ → Mem → Mem
memcpy dest src size m = memcpy_loop size dest src 0 m
