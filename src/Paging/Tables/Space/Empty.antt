-- ===== src/Paging/Tables/Space/Empty.antt =====
-- unmap_lower_half leaves the space of user pages empty, as vm_map can use it.
use aos_kernel.Base.{
  ℕ, ◌+◌, ◌*◌, ◌%◌, ◌^◌, ◌≤◌, ◌<◌, ◌≡◌, refl, sym, subst, ◌∙◌, inl, inr, false, none, List, arith,
}
use aos_kernel.Paging.Pool.{Pool, ptov}
use aos_kernel.Paging.Pool.Chain.{IsPool, NotIn}
use aos_kernel.Paging.Tables.{load_pte, index}
use aos_kernel.Paging.Tables.Walk.{walk}
use aos_kernel.Paging.Tables.Map.Laws.{page_of}
use aos_kernel.Paging.Tables.Lower.{unmap_lower_half}
use aos_kernel.Paging.Tables.Lower.Freed.{lower_frees}
use aos_kernel.Paging.Tables.Lower.Root.{AllClear, unmap_lower_half-absent}
use aos_kernel.Paging.Tables.Lower.Reclaimed.{
  pushed, CanFree, NotIn-pushed, unmap_lower_half-IsPool,
}
use aos_kernel.Paging.Tables.Space.{slot, On, Inside, IsTree, NotFree, user_end}
use aos_kernel.Paging.Tables.Space.Frame.{index_lt, true_ne_false}
use aos_kernel.Paging.Tables.Space.Laws.{IsSpace, page_entry}

module _ (root : ℕ) (k : Pool) (fs : List ℕ) (high : 2 ^ 63 ≤ k.hhdm)
    (room : root + k.hhdm + 4096 ≤ 2 ^ 64) (al : (root + k.hhdm) % 4096 ≡ 0)
    (free : NotIn (root + k.hhdm) fs) (p : IsPool k fs)
    (c : AllClear (ptov k root) k.hhdm (lower_frees 256 (ptov k root) k))
    (f : CanFree k.hhdm (lower_frees 256 (ptov k root) k) fs) where
  abbrev k' : Pool
  k' = unmap_lower_half root k

  abbrev freed : List ℕ
  freed = pushed k.hhdm (lower_frees 256 (ptov k root) k) fs

  at_root : ptov k root ≡ root + k.hhdm
  at_root = omega arith

  same_map : k'.hhdm ≡ k.hhdm
  same_map = (unmap_lower_half-absent root k (omega arith) c).0

  entry_off : (j : ℕ) → j < 256 → (load_pte k'.mem (slot k.hhdm root j)).present ≡ false
  entry_off j l =
      let h : slot k.hhdm root j ≡ ptov k root + 8 * j = omega arith in
      subst (λ a. (load_pte k'.mem a).present ≡ false) (sym h)
        ((unmap_lower_half-absent root k (omega arith) c).1 j l)

  off : (j : ℕ) → j < 256 → On k.hhdm k'.mem root j → ⊥
  off j l on = true_ne_false (sym on ∙ entry_off j l)

  only_root : (q : ℕ) → Inside k.hhdm 4 root k'.mem q → q ≡ root + k.hhdm
  only_root q (inl e) = e
  only_root q (inr (j, l, on, x)) = absurd (off j l on)

  root_free : NotIn (root + k.hhdm) freed
  root_free =
      subst (λ a. NotIn a freed) at_root
        (NotIn-pushed (ptov k root) k.hhdm (lower_frees 256 (ptov k root) k) fs c
          (subst (λ a. NotIn a fs) (sym at_root) free))

  -- After unmap_lower_half no page of the lower half is mapped, and the pool, with the freed pages,
  -- and the tables are a space of user pages, if the top table is a page of the direct map in the
  -- higher half, neither free nor freed, and each freed page is one of the direct map that is not
  -- on the list when its turn comes.
  pub unmap_lower_half-IsSpace :
      IsSpace root k' freed × ((b : ℕ) → b < user_end → page_entry root b k' ≡ none)
  unmap_lower_half-IsSpace = (
    record {
      pool =
          unmap_lower_half-IsPool root k fs (omega arith)
            (subst (λ a. NotIn a fs) (sym at_root) free) p c f;
      high = subst (λ h. 2 ^ 63 ≤ h) (sym same_map) high;
      tree =
          subst (λ h. IsTree h 4 root k'.mem) (sym same_map)
            (record {
              aligned = al;
              room = room;
              sub = λ j l on. absurd (off j l on);
              own = λ j l on x. off j l on;
              apart = λ j j' q l l' ne on on' x y. off j l on;
            });
      free =
          subst (λ h. NotFree h 4 root k'.mem freed) (sym same_map)
            (λ q x. subst (λ a. NotIn a freed) (sym (only_root q x)) root_free);
    },
    λ b low.
        subst (λ h. walk h (page_of b) 4 root k'.mem ≡ none) (sym same_map)
          (let e = entry_off (index (page_of b) 3) (index_lt (page_of b) 3 (omega arith)) in
            rw (e) refl),
  )
