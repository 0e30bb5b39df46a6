-- ===== src/Paging/Tables/Lower/Freed.antt =====
-- The loops below the top table as a sequence of calls of pmem_free.

use aos_kernel.Base.{
  ℕ, zero, suc, ◌+◌, ◌≡◌, refl, sym, ap, ◌∙◌, not, ◌&&◌, Bool, Bool-cases, inl, inr, List, [], ◌∷◌,
  ◌++◌, if◌then◌else◌,
}
use aos_kernel.Paging.Pte.{Pte}
use aos_kernel.Paging.Pool.{Pool, ptov, pmem_free}
use aos_kernel.Paging.Tables.{load_pte, next_table}
use aos_kernel.Paging.Tables.Lower.{
  free_l1_tables, free_l2_table, free_l2_tables, clear_entry, unmap_entry,
}

-- The pages freed one after the other.
abbrev pub free_all : List ℕ → Pool → Pool
free_all [] k = k
free_all (p ∷ ps) k = free_all ps (pmem_free p k)

pub free_all-++ : (ps qs : List ℕ) (k : Pool) → free_all (ps ++ qs) k ≡ free_all qs (free_all ps k)
free_all-++ [] qs k = refl
free_all-++ (p ∷ ps) qs k = free_all-++ ps qs (pmem_free p k)

-- The pages that each loop frees, from the state in which it starts.
abbrev pub is_table : Pte → Bool
is_table e = e.present && not e.page_size

abbrev pub l1_frees : ℕ → ℕ → Pool → List ℕ
l1_frees zero a k = []
l1_frees (suc left) a k =
    let e = load_pte k.mem a in
    let rest = l1_frees left (a + 8) (if is_table e then pmem_free (next_table e) k else k) in
    if is_table e then next_table e ∷ rest else rest

abbrev pub l2_table_frees : ℕ → Pool → List ℕ
l2_table_frees a k =
    let table = ptov k (next_table (load_pte k.mem a)) in
    let k' = free_l1_tables 512 table k in
    l1_frees 512 table k ++ (next_table (load_pte k'.mem a) ∷ [])

abbrev pub l2_frees : ℕ → ℕ → Pool → List ℕ
l2_frees zero a k = []
l2_frees (suc left) a k =
    let e = load_pte k.mem a in
    let rest = l2_frees left (a + 8) (if is_table e then free_l2_table a k else k) in
    if is_table e then l2_table_frees a k ++ rest else rest

unfoldable pub entry_frees : ℕ → Pool → List ℕ
entry_frees a k =
    let k1 = clear_entry a k in
    let table = ptov k1 (next_table (load_pte k1.mem a)) in
    let k2 = free_l2_tables 512 table k1 in
    l2_frees 512 table k1 ++ (next_table (load_pte k2.mem a) ∷ [])

-- The pages that unmap_lower_half frees, in order.
abbrev pub lower_frees : ℕ → ℕ → Pool → List ℕ
lower_frees zero a k = []
lower_frees (suc left) a k =
    let on = (load_pte k.mem a).present in
    let rest = lower_frees left (a + 8) (if on then unmap_entry a k else k) in
    if on then entry_frees a k ++ rest else rest

free_l1_tables-free_all :
    (left a : ℕ) (k : Pool) → free_l1_tables left a k ≡ free_all (l1_frees left a k) k
unfolding free_l1_tables
free_l1_tables-free_all zero a k = refl
free_l1_tables-free_all (suc left) a k = elim (Bool-cases (is_table (load_pte k.mem a))) [
  | inl table ↦
      rw table (free_l1_tables-free_all left (a + 8) (pmem_free (next_table (load_pte k.mem a)) k))
  | inr other ↦ rw other (free_l1_tables-free_all left (a + 8) k)
]

free_l2_table-free_all : (a : ℕ) (k : Pool) → free_l2_table a k ≡ free_all (l2_table_frees a k) k
unfolding free_l2_table
free_l2_table-free_all a k =
    let table = ptov k (next_table (load_pte k.mem a)) in
    let k' = free_l1_tables 512 table k in
    let p = next_table (load_pte k'.mem a) in
    ap (pmem_free p) (free_l1_tables-free_all 512 table k)
    ∙ sym (free_all-++ (l1_frees 512 table k) (p ∷ []) k)

free_l2_tables-free_all :
    (left a : ℕ) (k : Pool) → free_l2_tables left a k ≡ free_all (l2_frees left a k) k
unfolding free_l2_tables
free_l2_tables-free_all zero a k = refl
free_l2_tables-free_all (suc left) a k = elim (Bool-cases (is_table (load_pte k.mem a))) [
  | inl table ↦ rw table (
      free_l2_tables-free_all left (a + 8) (free_l2_table a k)
      ∙ ap (free_all (l2_frees left (a + 8) (free_l2_table a k))) (free_l2_table-free_all a k)
      ∙ sym (free_all-++ (l2_table_frees a k) (l2_frees left (a + 8) (free_l2_table a k)) k))
  | inr other ↦ rw other (free_l2_tables-free_all left (a + 8) k)
]

-- Behind the clearing of its entry, all that is done for an entry of level 4 is to free pages.
pub unmap_entry-free_all :
    (a : ℕ) (k : Pool) → unmap_entry a k ≡ free_all (entry_frees a k) (clear_entry a k)
unfolding unmap_entry entry_frees
unmap_entry-free_all a k =
    let k1 = clear_entry a k in
    let table = ptov k1 (next_table (load_pte k1.mem a)) in
    let k2 = free_l2_tables 512 table k1 in
    let p = next_table (load_pte k2.mem a) in
    ap (pmem_free p) (free_l2_tables-free_all 512 table k1)
    ∙ sym (free_all-++ (l2_frees 512 table k1) (p ∷ []) k1)
