-- ===== src/Paging/Tables/Space/Missing.antt =====
-- The branch of vm_map for a missing entry, on a tree of tables.
use aos_kernel.Base.{
  ℕ, suc, ◌+◌, ◌%◌, ◌^◌, ◌≤◌, ◌<◌, ◌≡◌, ◌≢◌, sym, ap, subst, ◌∙◌, ◌⊎◌, inl, inr, Bool, false, List,
  ◌∷◌, length, arith,
}
use aos_kernel.Memory.{Mem}
use aos_kernel.Paging.Pte.{Pte}
use aos_kernel.Paging.Pool.{Pool}
use aos_kernel.Paging.Pool.Chain.{NotIn}
use aos_kernel.Paging.Tables.{load_pte, entry_at, Outcome}
use aos_kernel.Paging.Tables.Map.Shape.{In}
use aos_kernel.Paging.Tables.Map.Create.{IsCreated}
use aos_kernel.Paging.Tables.Space.{user_end, Inside, IsTree, NotFree}
use aos_kernel.Paging.Tables.Space.Descend.{IsGrown}
use aos_kernel.Paging.Tables.Space.Create.{created_inside, created_walk}

-- The entry is missing: the page that is linked from it is a tree, which then grows.
module _ (address : ℕ) (low : address < user_end) (i root : ℕ) (k : Pool) (m : Mem) (head : ℕ)
    (f : ℕ) (fs : List ℕ) (e : Pte)
    (c : IsCreated k f fs
      (root + k.hhdm)
      (entry_at k.hhdm address root i)
      e
      (record k { mem = m; free_list = head }))
    (f_in : (f % 4096 ≡ 0) × (k.hhdm ≤ f) × (f + 4096 ≤ 2 ^ 64))
    (t : IsTree k.hhdm (suc i) root k.mem) (free : NotFree k.hhdm (suc i) root k.mem (f ∷ fs))
    (alone : NotIn f fs) where
  abbrev k' : Pool
  k' = record k { mem = m; free_list = head }

  was_inside :
      (q : ℕ) → Inside k.hhdm (suc i) root m q → Inside k.hhdm (suc i) root k.mem q ⊎ (q ≡ f)
  was_inside q x = created_inside address low i root k k' f fs e c f_in t free q x

  pub created_free : NotFree k.hhdm (suc i) root m fs
  created_free q x = elim (was_inside q x) [
    | inl o ↦ (free q o).1
    | inr n ↦ subst (λ a. NotIn a fs) (sym n) alone
  ]

  missing_inside :
      (q : ℕ) (taken : List ℕ)
      → (Inside k.hhdm (suc i) root m q ⊎ In q taken)
      → Inside k.hhdm (suc i) root k.mem q ⊎ In q (f ∷ taken)
  missing_inside q taken (inr n) = inr (inr n)
  missing_inside q taken (inl o) = elim (was_inside q o) [ inl x ↦ inl x | inr n ↦ inr (inl n) ]

  pub IsGrown-missing :
      (result : Outcome (Bool × Pool))
      → (load_pte k.mem (entry_at k.hhdm address root i)).present ≡ false
      → (g : IsGrown address (suc i) root k' fs result) → length g.taken ≤ i
      → IsGrown address (suc i) root k (f ∷ fs) result
  IsGrown-missing result pr g less = record {
    state = g.state;
    returns = g.returns;
    same_map = g.same_map;
    taken = f ∷ g.taken;
    left = g.left;
    split = ap (◌∷◌ f) g.split;
    few = omega (arith, less);
    pool = g.pool;
    tree = g.tree;
    inside = λ q x. missing_inside q g.taken (g.inside q x);
    kept = λ q al out outside x lo hi.
        g.kept q al out.1 (λ h. elim (was_inside q h) [ inl o ↦ outside o | inr n ↦ out.0 n ]) x lo
          hi
        ∙ created_kept q al out.0 outside x lo hi;
    others = λ b b_low d.
        g.others b b_low d ∙ created_walk address low i root b k k' f fs e c f_in t free pr b_low d;
  }
    where
      created_kept :
          (q : ℕ)
          → q % 4096 ≡ 0
          → q ≢ f
          → ¬ Inside k.hhdm (suc i) root k.mem q
          → (x : ℕ) → q ≤ x
          → x < q + 4096
          → m x ≡ k.mem x
      created_kept q al ne outside x lo hi =
          let v_al = t.aligned in
          let out : q ≢ root + k.hhdm = λ h. outside (inl h) in
          c.others x (omega (arith, f_in)) (omega arith)
