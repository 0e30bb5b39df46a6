-- ===== src/Interrupts/Syscalls/Heap.antt =====
-- The mmap system call, branch 2 of syscall_handler of kernel/idt.c. The pointer that it writes
-- through is the program's, so that each byte of the address goes where the page walk leads. A
-- store to a read-only page is taken to succeed, as with the processor's write protection off for
-- the kernel. `root` is the control register as it is.
pub mod Mapped
mod Tests
use aos_kernel.Base.{ℕ, zero, suc, ◌+◌, ◌/◌, ◌%◌, ◌^◌, true, List, [], ◌∷◌}
use aos_kernel.Paging.Pool.{Pool}
use aos_kernel.Paging.Tables.{vm_map, Outcome, done, fault}
use aos_kernel.Paging.Tables.Space.Store.{user_store}
use aos_kernel.Programs.Load.{page_size}

-- `v_heap`, with the tables and the pool.
pub record Heap : Type 0 where
  pub pool : Pool
  pub v_heap : ℕ

-- The bytes of a word, the lowest first.
abbrev pub word_bytes : ℕ → ℕ → List ℕ
word_bytes zero w = []
word_bytes (suc n) w = w % 2 ^ 8 ∷ word_bytes n (w / 2 ^ 8)

-- The bytes stored from the address `a` of the program on.
pub user_stores : ℕ → ℕ → List ℕ → Pool → Outcome Pool
user_stores root a [] k = done k
user_stores root a (b ∷ bs) k = elim (user_store root a b k) [
  | done k' ↦ user_stores root (a + 1) bs k'
  | fault ↦ fault
]

-- `*(uint64_t*)arg0 = v_heap` and what follows it. The result is that of the system call.
abbrev pub grant : ℕ → ℕ → ℕ → Pool → Outcome (ℕ × Heap)
grant root arg0 v_heap k = elim (user_stores root arg0 (word_bytes 8 v_heap) k) [
  | done k' ↦ done (0, record { pool = k'; v_heap = (v_heap + page_size) % 2 ^ 64 })
  | fault ↦ fault
]

pub syscall_mmap : ℕ → ℕ → Heap → Outcome (ℕ × Heap)
syscall_mmap root arg0 h = elim (vm_map root h.v_heap true true true h.pool) [
  | done r ↦ grant root arg0 h.v_heap r.1
  | fault ↦ fault
]
