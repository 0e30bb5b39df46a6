-- ===== src/Paging/Tables/Map/Shape.antt =====
-- What a successful vm_map leaves behind, and the pages that it walks through.

use aos_kernel.Base.{
  ℕ, zero, suc, ◌+◌, ◌%◌, ◌^◌, ◌≤◌, ◌<◌, ◌≡◌, ap, ◌⊎◌, Bool, true, not, some, List, [], ◌∷◌, ◌++◌,
  arith, if◌then◌else◌,
}
use aos_kernel.Memory.{Mem}
use aos_kernel.Memory.Word.{load64_ext}
use aos_kernel.Paging.Pte.{Pte, decode}
use aos_kernel.Paging.Pool.{Pool}
use aos_kernel.Paging.Pool.Chain.{IsPool, NotIn, InMap, Distinct}
use aos_kernel.Paging.Tables.{load_pte, next_table, entry_at, Outcome, done}
use aos_kernel.Paging.Tables.Walk.{walk}

-- The table pages on the way down, as far as the entries are present, in the direct map.
abbrev pub pages : ℕ → ℕ → ℕ → ℕ → Mem → List ℕ
pages hhdm address zero root m = []
pages hhdm address (suc i) root m =
    let e = load_pte m (entry_at hhdm address root i) in
    let rest = pages hhdm address i (next_table e) m in
    (root + hhdm) ∷ (if e.present then rest else [])

-- No page of the first list is on the second.
abbrev pub Apart : List ℕ → List ℕ → Type 0
Apart [] fs = Unit {0}
Apart (p ∷ ps) fs = NotIn p fs × Apart ps fs

-- The tables are pages of the direct map, each met once, and none of them is free.
pub record AreTables (ps fs : List ℕ) (hhdm : ℕ) : Type 0 where
  pub in_map : InMap hhdm ps
  pub distinct : Distinct ps
  pub used : Apart ps fs

abbrev pub In : ℕ → List ℕ → Type 0
In a [] = ⊥
In a (f ∷ fs) = (a ≡ f) ⊎ In a fs

-- The entry of the page has the permissions that were asked for, and its frame was free.
pub record IsLeaf (user writable executable : Bool) (hhdm : ℕ) (taken : List ℕ) (e : Pte)
    : Type 0 where
  pub present : e.present ≡ true
  pub user_is : e.user ≡ user
  pub writable_is : e.writable ≡ writable
  pub no_execute_is : e.no_execute ≡ not executable
  pub frame_free : In (next_table e + hhdm) taken

-- What the loop leaves behind, for a page that was not mapped.
pub record IsMapped (user writable executable : Bool) (address n root : ℕ) (k : Pool) (fs : List ℕ)
    (result : Outcome (Bool × Pool)) : Type 0 where
  pub state : Pool
  pub returns : result ≡ done (true, state)
  pub same_map : state.hhdm ≡ k.hhdm
  pub taken : List ℕ
  pub left : List ℕ
  pub split : fs ≡ taken ++ left
  pub pool : IsPool state left
  pub entry : Pte
  pub found : walk k.hhdm address n root state.mem ≡ some entry
  pub leaf : IsLeaf user writable executable k.hhdm taken entry
  pub others :
      (q : ℕ)
      → q % 4096 ≡ 0
      → NotIn q fs
      → NotIn q (pages k.hhdm address n root k.mem)
      → (x : ℕ) → q ≤ x
      → x < q + 4096
      → state.mem x ≡ k.mem x

-- The entry of a table page lies within the page.
pub entry_in :
    (hhdm address root i : ℕ)
    → root + hhdm + 4096 ≤ 2 ^ 64
    → (root + hhdm ≤ entry_at hhdm address root i)
      × (entry_at hhdm address root i + 8 ≤ root + hhdm + 4096)
entry_in hhdm address root i h = omega arith

-- A word within a page whose bytes are the same is the same.
pub load_pte-page :
    (m n : Mem) (q a : ℕ)
    → q ≤ a
    → a + 8 ≤ q + 4096
    → ((x : ℕ) → q ≤ x → x < q + 4096 → n x ≡ m x)
    → load_pte n a ≡ load_pte m a
load_pte-page m n q a lo hi same =
    ap decode (load64_ext n m a (λ x l h. same x (omega arith) (omega arith)))
