-- ===== src/Interrupts/Syscalls/Heap/Mapped.antt =====
-- What the mmap system call leaves behind.
use aos_kernel.Base.{
  ℕ, zero, suc, ◌+◌, ◌/◌, ◌≤◌, ◌<◌, ◌≡◌, ◌≢◌, ◌⊎◌, true, none, some, List, [], ◌∷◌, length,
}
use aos_kernel.Paging.Pte.{Pte}
use aos_kernel.Paging.Pool.{Pool}
use aos_kernel.Paging.Tables.{Outcome, done}
use aos_kernel.Paging.Tables.Space.{user_end}
use aos_kernel.Paging.Tables.Space.Laws.{IsSpace, page_entry, Permits}
use aos_kernel.Paging.Tables.Space.Store.{user_byte}
use aos_kernel.Programs.Load.{page_size}
use aos_kernel.Interrupts.Syscalls.Heap.{Heap, word_bytes}

-- The `n` bytes of the program from `a` on are mapped.
abbrev pub AllMapped : ℕ → ℕ → ℕ → Pool → Type 0
AllMapped root a zero k = Unit {0}
AllMapped root a (suc n) k =
    ((e : Pte) × (page_entry root a k ≡ some e)) × AllMapped root (a + 1) n k

-- They are the bytes `bs`.
abbrev pub AreBytes : ℕ → ℕ → List ℕ → Pool → Type 0
AreBytes root a [] k = Unit {0}
AreBytes root a (b ∷ bs) k = (user_byte root a k ≡ some b) × AreBytes root (a + 1) bs k

record AreStored (root a : ℕ) (bs : List ℕ) (k : Pool) (fs : List ℕ) (result : Outcome Pool)
    : Type 0 where
  state : Pool
  returns : result ≡ done state
  space : IsSpace root state fs
  entries : (b : ℕ) → b < user_end → page_entry root b state ≡ page_entry root b k
  bytes : AreBytes root a bs state
  others :
      (b : ℕ)
      → b < user_end
      → (b < a) ⊎ (a + length bs ≤ b)
      → user_byte root b state ≡ user_byte root b k

-- What mmap leaves behind.
pub record IsGranted (root arg0 : ℕ) (h : Heap) (fs : List ℕ) (result : Outcome (ℕ × Heap))
    : Type 0 where
  pub state : Heap
  pub returns : result ≡ done (0, state)
  pub left : List ℕ
  pub space : IsSpace root state.pool left
  pub used : length fs ≤ length left + 4
  pub next : state.v_heap ≡ h.v_heap + page_size
  pub written : AreBytes root arg0 (word_bytes 8 h.v_heap) state.pool
  pub entry : Pte
  pub found : page_entry root h.v_heap state.pool ≡ some entry
  pub before :
      (page_entry root h.v_heap h.pool ≡ some entry)
      ⊎ ((page_entry root h.v_heap h.pool ≡ none) × Permits true true true entry)
  pub others :
      (b : ℕ)
      → b < user_end
      → b / 4096 ≢ h.v_heap / 4096
      → page_entry root b state.pool ≡ page_entry root b h.pool
