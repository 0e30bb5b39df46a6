-- ===== src/Paging/Tables/Walk.antt =====
-- The page walk of the processor, by which the changes to the tables are judged: it goes down
-- through present entries, and ends at the entry of the page.
use aos_kernel.Base.{
  ℕ, zero, suc, ◌%◌, ◌≡◌, ◌≢◌, refl, sym, Bool, true, false, Option, none, some, List, [], ◌∷◌,
  arith, if◌then◌else◌,
}
use aos_kernel.Memory.{Mem}
use aos_kernel.Memory.Word.{load64, store64, load64-store64_far, load64-store64_self}
use aos_kernel.Paging.Pte.{Pte, encode}
use aos_kernel.Paging.Pte.Laws.{Fits, encode-lt, decode-encode}
use aos_kernel.Paging.Pool.Chain.{NotIn, Distinct}
use aos_kernel.Paging.Tables.{load_pte, store_pte, next_table, entry_at}

module _ (hhdm address : ℕ) where
  -- From the table at `root`, with `n` levels to go. (Entries for large pages do not occur in
  -- the tables that this code builds.)
  abbrev pub walk : ℕ → ℕ → Mem → Option Pte
  walk zero root m = none
  walk (suc zero) root m =
      let e = load_pte m (entry_at hhdm address root 0) in if e.present then some e else none
  walk (suc (suc i)) root m =
      let e = load_pte m (entry_at hhdm address root (suc i)) in
      let rest = walk (suc i) (next_table e) m in if e.present then rest else none

  -- The addresses of the entries on the way down, whether present or not.
  abbrev pub trail : ℕ → ℕ → Mem → List ℕ
  trail zero root m = []
  trail (suc i) root m =
      let a = entry_at hhdm address root i in a ∷ trail i (next_table (load_pte m a)) m

  -- The address of the last entry of the trail.
  abbrev pub leaf : ℕ → ℕ → Mem → ℕ
  leaf zero root m = entry_at hhdm address root 0
  leaf (suc i) root m = leaf i (next_table (load_pte m (entry_at hhdm address root (suc i)))) m

  -- The entries above the last one are present.
  abbrev pub reaches : ℕ → ℕ → Mem → Bool
  reaches zero root m = true
  reaches (suc i) root m =
      let e = load_pte m (entry_at hhdm address root (suc i)) in
      let rest = reaches i (next_table e) m in if e.present then rest else false

pub entry_at_aligned :
    (hhdm address root i : ℕ) → hhdm % 8 ≡ 0 → root % 8 ≡ 0 → entry_at hhdm address root i % 8 ≡ 0
entry_at_aligned hhdm address root i h r = omega arith

-- The word at another aligned address is not changed by a store.
load64-store64_ne :
    (m : Mem) (a b v : ℕ) → a % 8 ≡ 0 → b % 8 ≡ 0 → a ≢ b → load64 (store64 m a v) b ≡ load64 m b
load64-store64_ne m a b v al bl ne = load64-store64_far m a b v (ground arith)

abbrev pub entry_or_none : Bool → Pte → Option Pte
entry_or_none reached e = if reached then (if e.present then some e else none) else none

module _ (hhdm address : ℕ) (map_al : hhdm % 8 ≡ 0) where
  -- A store outside the trail changes neither the walk nor the trail.
  pub walk-store64_far :
      (n root : ℕ) (m : Mem) (a v : ℕ)
      → root % 8 ≡ 0
      → a % 8 ≡ 0
      → NotIn a (trail hhdm address n root m)
      → walk hhdm address n root (store64 m a v) ≡ walk hhdm address n root m
  walk-store64_far zero root m a v r al out = refl
  walk-store64_far (suc zero) root m a v r al out = rw (
      load64-store64_ne m a (entry_at hhdm address root 0) v al
        (entry_at_aligned hhdm address root 0 map_al r) out.0)
  walk-store64_far (suc (suc i)) root m a v r al out =
      let b = entry_at hhdm address root (suc i) in
      rw (
        load64-store64_ne m a b v al (entry_at_aligned hhdm address root (suc i) map_al r) out.0,
        walk-store64_far (suc i) (next_table (load_pte m b)) m a v (omega arith) al out.1,
      )

  pub leaf_aligned : (n root : ℕ) (m : Mem) → root % 8 ≡ 0 → leaf hhdm address n root m % 8 ≡ 0
  leaf_aligned zero root m r = entry_at_aligned hhdm address root 0 map_al r
  leaf_aligned (suc i) root m r =
      leaf_aligned i (next_table (load_pte m (entry_at hhdm address root (suc i)))) m (omega arith)

  leaf_in_trail :
      (n root : ℕ) (m : Mem) (b : ℕ)
      → NotIn b (trail hhdm address (suc n) root m)
      → b ≢ leaf hhdm address n root m
  leaf_in_trail zero root m b out = out.0
  leaf_in_trail (suc i) root m b out =
      leaf_in_trail i (next_table (load_pte m (entry_at hhdm address root (suc i)))) m b out.1

  -- What the walk finds is the last entry, if the entries above it are present.
  pub walk-leaf :
      (n root : ℕ) (m : Mem)
      → walk hhdm address (suc n) root m
        ≡ entry_or_none (reaches hhdm address n root m) (load_pte m (leaf hhdm address n root m))
  walk-leaf zero root m = refl
  walk-leaf (suc i) root m =
      let e = load_pte m (entry_at hhdm address root (suc i)) in
      rw (walk-leaf i (next_table e) m) (ground arith)

  -- After a new entry is stored as the last one of a trail that meets no entry twice, the walk
  -- finds the new entry.
  pub walk-store_leaf :
      (n root : ℕ) (m : Mem) (e : Pte)
      → root % 8 ≡ 0
      → Fits e
      → Distinct (trail hhdm address (suc n) root m)
      → walk hhdm address (suc n) root (store_pte m (leaf hhdm address n root m) e)
        ≡ entry_or_none (reaches hhdm address n root m) e
  walk-store_leaf zero root m e r f d = rw (
    load64-store64_self m (entry_at hhdm address root 0) (encode e) (encode-lt e f),
    decode-encode e f,
  )
  walk-store_leaf (suc i) root m e r f d =
      let b = entry_at hhdm address root (suc i) in
      let next = next_table (load_pte m b) in
      rw
        (
          load64-store64_ne m (leaf hhdm address i next m) b (encode e)
              (leaf_aligned i next m (omega arith))
              (entry_at_aligned hhdm address root (suc i) map_al r)
              (λ q. leaf_in_trail i next m b d.0 (sym q)),
          walk-store_leaf i next m e (omega arith) f d.1,
        )
        (ground arith)
