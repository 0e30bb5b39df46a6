-- ===== src/Paging/Tables/Space.antt =====
-- The page tables as a tree: what the invariant of vm_map is, and which pages belong to it.
pub mod Frame
pub mod Change
pub mod Blank
pub mod Create
pub mod Descend
pub mod Missing
pub mod Loop
pub mod Trail
pub mod Isolation
pub mod Laws
pub mod Store
pub mod Empty
pub mod Examples
mod Tests
use aos_kernel.Base.{
  ℕ, zero, suc, ◌+◌, ◌*◌, ◌%◌, ◌^◌, ◌≤◌, ◌<◌, ◌≡◌, ◌≢◌, ◌⊎◌, ◌==◌, if◌then◌else◌, Bool, true, List,
}
use aos_kernel.Memory.{Mem}
use aos_kernel.Paging.Pool.Chain.{NotIn}
use aos_kernel.Paging.Tables.{load_pte, next_table, index}

-- Of the top-level table the lower half is of the tree, by which user programs are mapped. The
-- upper half maps the kernel.
abbrev pub width : ℕ → ℕ
width i = if i == 3 then 256 else 512

-- The end of the addresses that the lower half of the top-level table maps.
abbrev pub user_end : ℕ
user_end = 2 ^ 47

module _ (hhdm : ℕ) where
  -- The address of entry `j` of the table at `root`; `entry_at` is the one of an address.
  abbrev pub slot : ℕ → ℕ → ℕ
  slot root j = ((root + hhdm) % 2 ^ 64 + 8 * j) % 2 ^ 64

  abbrev pub On : Mem → ℕ → ℕ → Type 0
  On m root j = (load_pte m (slot root j)).present ≡ true

  -- The table that an entry leads to.
  abbrev pub below : Mem → ℕ → ℕ → ℕ
  below m root j = next_table (load_pte m (slot root j))

  -- The page at `q` of the direct map is a table of the tree of `n` levels at `root` or, where
  -- `frames` says so, the frame of a page that the tree maps.
  abbrev pub Within : Bool → ℕ → ℕ → Mem → ℕ → Type 0
  Within frames zero root m q = (frames ≡ true) × (q ≡ root + hhdm)
  Within frames (suc i) root m q =
      (q ≡ root + hhdm)
      ⊎ ((j : ℕ) × (j < width i) × On m root j × Within frames i (below m root j) m q)

  abbrev pub Inside : ℕ → ℕ → Mem → ℕ → Type 0
  Inside n root m q = Within true n root m q

  -- A table page of the direct map over the trees of its entries: it is in none of them, and no
  -- two of them share a page.
  pub record IsNode (i root : ℕ) (m : Mem) (Sub : ℕ → Type 0) : Type 0 where
    pub aligned : (root + hhdm) % 4096 ≡ 0
    pub room : root + hhdm + 4096 ≤ 2 ^ 64
    pub sub : (j : ℕ) → j < width i → On m root j → Sub (below m root j)
    pub own : (j : ℕ) → j < width i → On m root j → ¬ Inside i (below m root j) m (root + hhdm)
    pub apart :
        (j l q : ℕ)
        → j < width i
        → l < width i
        → j ≢ l
        → On m root j
        → On m root l
        → Inside i (below m root j) m q
        → ¬ Inside i (below m root l) m q

  -- The pages below `root` form a tree of `n` levels of tables, whose leaves are frames.
  abbrev pub IsTree : ℕ → ℕ → Mem → Type 0
  IsTree zero root m = ((root + hhdm) % 4096 ≡ 0) × (root + hhdm + 4096 ≤ 2 ^ 64)
  IsTree (suc i) root m = IsNode i root m (λ r. IsTree i r m)

  -- No page of the tree is free.
  abbrev pub NotFree : ℕ → ℕ → Mem → List ℕ → Type 0
  NotFree n root m fs = (q : ℕ) → Inside n root m q → NotIn q fs

-- The ways of two addresses part at one of the `n` levels.
abbrev pub Differ : ℕ → ℕ → ℕ → Type 0
Differ a b zero = ⊥
Differ a b (suc i) = (index a i ≢ index b i) ⊎ Differ a b i
