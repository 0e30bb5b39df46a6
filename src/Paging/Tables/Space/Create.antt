-- ===== src/Paging/Tables/Space/Create.antt =====
-- The branch of vm_map for a missing entry: the tree gets the page from the pool.
use aos_kernel.Base.{
  ℕ, zero, suc, ◌+◌, ◌-◌, ◌%◌, ◌^◌, ◌≤◌, ◌<◌, ◌≡◌, ◌≢◌, refl, sym, ap, subst, ◌∙◌, ◌⊎◌, inl, inr,
  false, List, ◌∷◌, arith,
}
use aos_kernel.Memory.Word.{load64_ext}
use aos_kernel.Paging.Pte.{Pte, decode}
use aos_kernel.Paging.Pool.{Pool}
use aos_kernel.Paging.Tables.{load_pte, next_table, index, entry_at}
use aos_kernel.Paging.Tables.Walk.{walk}
use aos_kernel.Paging.Tables.Map.Blank.{blank_walk}
use aos_kernel.Paging.Tables.Map.Create.{IsCreated}
use aos_kernel.Paging.Tables.Space.{
  width, user_end, slot, On, below, Inside, IsTree, NotFree, Differ,
}
use aos_kernel.Paging.Tables.Space.Frame.{
  index_lt, slot_eq, Same, Within-aligned, Within-Inside, in_width,
}
use aos_kernel.Paging.Tables.Space.Change.{
  eq_or_ne, IsChanged, changed-IsTree, changed_inside, changed_walk,
}
use aos_kernel.Paging.Tables.Space.Blank.{blank-IsTree, blank_inside}

module _ (address : ℕ) (low : address < user_end) (i root : ℕ) (k k' : Pool) (f : ℕ) (fs : List ℕ)
    (e : Pte) (c : IsCreated k f fs (root + k.hhdm) (entry_at k.hhdm address root i) e k')
    (f_in : (f % 4096 ≡ 0) × (k.hhdm ≤ f) × (f + 4096 ≤ 2 ^ 64))
    (t : IsTree k.hhdm (suc i) root k.mem) (free : NotFree k.hhdm (suc i) root k.mem (f ∷ fs)) where
  created_slots :
      (j : ℕ)
      → j < width i
      → j ≢ index address i
      → load_pte k'.mem (slot k.hhdm root j) ≡ load_pte k.mem (slot k.hhdm root j)
  created_slots j l ne =
      let lt = in_width i j l in
      let lt' = in_width i (index address i) (index_lt address i low) in
      let s = slot_eq k.hhdm root j t.room (in_width i j l) in
      let s' =
        slot_eq k.hhdm root (index address i) t.room
          (in_width i (index address i) (index_lt address i low)) in
      let v_f = (free (root + k.hhdm) (inl refl)).0 in
      let al = t.aligned in
      let room = t.room in
      ap decode (
        load64_ext k'.mem k.mem (slot k.hhdm root j)
          (λ x lo hi. c.beside x (omega (arith, f_in)) (omega arith)))

  created_subs :
      (j : ℕ)
      → j < width i
      → On k.hhdm k.mem root j
      → Same k.hhdm i (below k.hhdm k.mem root j) k.mem k'.mem
  created_subs j l on q x y lo hi =
      let al = Within-aligned k.hhdm false i (below k.hhdm k.mem root j) k.mem q (t.sub j l on) x in
      let v_al = t.aligned in
      let x' = Within-Inside k.hhdm i (below k.hhdm k.mem root j) k.mem q x in
      let ne : q ≢ root + k.hhdm =
        λ h. t.own j l on (subst (Inside k.hhdm i (below k.hhdm k.mem root j) k.mem) h x') in
      let q_f = (free q (inr (j, l, on, x'))).0 in c.others y (omega (arith, f_in)) (omega arith)

  created_next : next_table (load_pte k'.mem (entry_at k.hhdm address root i)) ≡ f - k.hhdm
  created_next = ap next_table c.entry ∙ c.table

  created_changed : IsChanged k.hhdm i root k.mem k'.mem (index address i) (λ q. q ≡ f)
  created_changed = record {
    slots = created_slots;
    subs = λ j l ne on. created_subs j l on;
    tree = λ on.
        subst (λ r. IsTree k.hhdm i r k'.mem) (sym created_next)
          (blank-IsTree k.hhdm f k'.mem f_in.0 f_in.1 f_in.2 c.zeroed i);
    from = λ q on x. inr (
        blank_inside k.hhdm f k'.mem f_in.0 f_in.1 f_in.2 c.zeroed i q
          (subst (λ r. Inside k.hhdm i r k'.mem q) created_next x));
    fresh = λ q h x. (free q x).0 h;
  }

  pub created-IsTree : IsTree k.hhdm (suc i) root k'.mem
  created-IsTree =
      changed-IsTree k.hhdm i root k.mem k'.mem (index address i) (λ q. q ≡ f) t
        (index_lt address i low) created_changed

  pub created_inside :
      (q : ℕ) → Inside k.hhdm (suc i) root k'.mem q → Inside k.hhdm (suc i) root k.mem q ⊎ (q ≡ f)
  created_inside q x =
      changed_inside k.hhdm i root k.mem k'.mem (index address i) (λ q. q ≡ f) t
        (index_lt address i low) created_changed q x

-- A walk that takes the new entry finds nothing, as before.
same_way :
    (address i root b : ℕ) (k k' : Pool) (f : ℕ) (fs : List ℕ) (e : Pte)
    (c : IsCreated k f fs (root + k.hhdm) (entry_at k.hhdm address root i) e k')
    (f_in : (f % 4096 ≡ 0) × (k.hhdm ≤ f) × (f + 4096 ≤ 2 ^ 64))
    → (load_pte k.mem (entry_at k.hhdm address root i)).present ≡ false
    → Differ address b (suc i)
    → index b i ≡ index address i
    → walk k.hhdm b (suc i) root k'.mem ≡ walk k.hhdm b (suc i) root k.mem
same_way address zero root b k k' f fs e c f_in pr (inl ne) h = absurd (ne (sym h))
same_way address zero root b k k' f fs e c f_in pr (inr d) h = elim d [ ]
same_way address (suc i) root b k k' f fs e c f_in pr d h =
    let w = blank_walk k.hhdm b i f k'.mem f_in.1 f_in.2 c.zeroed in
    let c_next = ap next_table c.entry ∙ c.table in rw (h, pr, c_next, w) (ground arith)

pub created_walk :
    (address : ℕ) (low : address < user_end) (i root b : ℕ) (k k' : Pool) (f : ℕ) (fs : List ℕ)
    (e : Pte) (c : IsCreated k f fs (root + k.hhdm) (entry_at k.hhdm address root i) e k')
    (f_in : (f % 4096 ≡ 0) × (k.hhdm ≤ f) × (f + 4096 ≤ 2 ^ 64))
    (t : IsTree k.hhdm (suc i) root k.mem) (free : NotFree k.hhdm (suc i) root k.mem (f ∷ fs))
    → (load_pte k.mem (entry_at k.hhdm address root i)).present ≡ false
    → b < user_end
    → Differ address b (suc i)
    → walk k.hhdm b (suc i) root k'.mem ≡ walk k.hhdm b (suc i) root k.mem
created_walk address low i root b k k' f fs e c f_in t free pr b_low d =
    elim (eq_or_ne (index b i) (index address i)) [
      | inl h ↦ same_way address i root b k k' f fs e c f_in pr d h
      | inr ne ↦
          changed_walk k.hhdm i root k.mem k'.mem (index address i) (λ q. q ≡ f) b b_low t
            (created_changed address low i root k k' f fs e c f_in t free) ne
    ]
