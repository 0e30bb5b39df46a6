-- ===== src/Paging/Tables/Space/Change.antt =====
-- A change of one entry of a table and of what is below it, the rest of the tree as it was.
use aos_kernel.Base.{
  ℕ, zero, suc, ◌+◌, ◌<◌, ◌≡◌, ◌≢◌, refl, sym, ap, subst, ◌∙◌, ◌⊎◌, inl, inr, true, none, arith,
  if◌then◌else◌, Bool-cases,
}
use aos_kernel.Memory.{Mem}
use aos_kernel.Paging.Tables.{load_pte, next_table, index}
use aos_kernel.Paging.Tables.Walk.{walk}
use aos_kernel.Paging.Tables.Space.{width, user_end, slot, On, below, Inside, IsTree}
use aos_kernel.Paging.Tables.Space.Frame.{index_lt, Same, Within-Same, walk-Same, IsTree-Same}

pub eq_or_ne : (a b : ℕ) → (a ≡ b) ⊎ (a ≢ b)
eq_or_ne a b = omega arith

-- Between `m` and `m'`, entry `c` of the table at `root` and its tree have changed, and the tree
-- has got the tables of `New`.
pub record IsChanged (hhdm i root : ℕ) (m m' : Mem) (c : ℕ) (New : ℕ → Type 0) : Type 0 where
  pub slots :
      (j : ℕ) → j < width i → j ≢ c → load_pte m' (slot hhdm root j) ≡ load_pte m (slot hhdm root j)
  pub subs :
      (j : ℕ) → j < width i → j ≢ c → On hhdm m root j → Same hhdm i (below hhdm m root j) m m'
  pub tree : On hhdm m' root c → IsTree hhdm i (below hhdm m' root c) m'
  pub from :
      (q : ℕ)
      → On hhdm m' root c
      → Inside hhdm i (below hhdm m' root c) m' q
      → (On hhdm m root c × Inside hhdm i (below hhdm m root c) m q) ⊎ New q
  pub fresh : (q : ℕ) → New q → ¬ Inside hhdm (suc i) root m q

module _ (hhdm i root : ℕ) (m m' : Mem) (c : ℕ) (New : ℕ → Type 0) (t : IsTree hhdm (suc i) root m)
    (lt : c < width i) (ch : IsChanged hhdm i root m m' c New) where
  was-On : (j : ℕ) → j < width i → j ≢ c → On hhdm m' root j → On hhdm m root j
  was-On j l ne h = ap (λ p. p.present) (sym (ch.slots j l ne)) ∙ h

  was_inside :
      (j : ℕ) (l : j < width i) (ne : j ≢ c) (h : On hhdm m' root j) (q : ℕ)
      → Inside hhdm i (below hhdm m' root j) m' q
      → Inside hhdm i (below hhdm m root j) m q
  was_inside j l ne h q x =
      let on = was-On j l ne h in
      Within-Same hhdm true i (below hhdm m root j) m m' q (t.sub j l on) (ch.subs j l ne on)
        (subst (λ p. Inside hhdm i (next_table p) m' q) (ch.slots j l ne) x)

  -- A table below an entry was below it before, or is new below the changed entry.
  was :
      (j : ℕ) (l : j < width i) (h : On hhdm m' root j) (q : ℕ)
      → Inside hhdm i (below hhdm m' root j) m' q
      → (On hhdm m root j × Inside hhdm i (below hhdm m root j) m q) ⊎ (New q × (j ≡ c))
  was j l h q x = elim (eq_or_ne j c) [
    | inl e ↦
        (elim (ch.from q (subst (λ d. On hhdm m' root d) e h)
          (subst (λ d. Inside hhdm i (below hhdm m' root d) m' q) e x)) [
            | inl o ↦
                inl (
                  subst (λ d. On hhdm m root d × Inside hhdm i (below hhdm m root d) m q) (sym e) o)
            | inr n ↦ inr (n, e)
          ])
    | inr ne ↦ inl (was-On j l ne h, was_inside j l ne h q x)
  ]

  pub changed_inside :
      (q : ℕ) → Inside hhdm (suc i) root m' q → Inside hhdm (suc i) root m q ⊎ New q
  changed_inside q (inl e) = inl (inl e)
  changed_inside q (inr (j, l, h, x)) = elim (was j l h q x) [
    | inl o ↦ inl (inr (j, l, o.0, o.1))
    | inr n ↦ inr n.0
  ]

  changed_sub : (j : ℕ) → j < width i → On hhdm m' root j → IsTree hhdm i (below hhdm m' root j) m'
  changed_sub j l h = elim (eq_or_ne j c) [
    | inl e ↦
        subst (λ d. IsTree hhdm i (below hhdm m' root d) m') (sym e)
          (ch.tree (subst (λ d. On hhdm m' root d) e h))
    | inr ne ↦
        subst (λ p. IsTree hhdm i (next_table p) m') (sym (ch.slots j l ne))
          (IsTree-Same hhdm i (below hhdm m root j) m m' (t.sub j l (was-On j l ne h))
            (ch.subs j l ne (was-On j l ne h)))
  ]

  changed_apart :
      (j l q : ℕ)
      → j < width i
      → l < width i
      → j ≢ l
      → On hhdm m' root j
      → On hhdm m' root l
      → Inside hhdm i (below hhdm m' root j) m' q
      → ¬ Inside hhdm i (below hhdm m' root l) m' q
  changed_apart j l q lj ll ne hj hl x y = elim (was j lj hj q x) [
    | inl o ↦ (elim (was l ll hl q y) [
      | inl o' ↦ t.apart j l q lj ll ne o.0 o'.0 o.1 o'.1
      | inr n ↦ ch.fresh q n.0 (inr (j, lj, o.0, o.1))
    ])
    | inr n ↦ (elim (was l ll hl q y) [
      | inl o ↦ ch.fresh q n.0 (inr (l, ll, o.0, o.1))
      | inr n' ↦ ne (n.1 ∙ sym n'.1)
    ])
  ]

  changed_own :
      (j : ℕ)
      → j < width i
      → On hhdm m' root j
      → ¬ Inside hhdm i (below hhdm m' root j) m' (root + hhdm)
  changed_own j l h x = elim (was j l h (root + hhdm) x) [
    | inl o ↦ t.own j l o.0 o.1
    | inr n ↦ ch.fresh (root + hhdm) n.0 (inl refl)
  ]

  pub changed-IsTree : IsTree hhdm (suc i) root m'
  changed-IsTree = record {
    aligned = t.aligned;
    room = t.room;
    sub = changed_sub;
    own = changed_own;
    apart = changed_apart;
  }

-- The walk of an address that takes another entry is the same.
pub changed_walk :
    (hhdm i root : ℕ) (m m' : Mem) (c : ℕ) (New : ℕ → Type 0) (b : ℕ)
    → b < user_end
    → IsTree hhdm (suc i) root m
    → IsChanged hhdm i root m m' c New
    → index b i ≢ c
    → walk hhdm b (suc i) root m' ≡ walk hhdm b (suc i) root m
changed_walk hhdm zero root m m' c New b low t ch ne =
    rw (ch.slots (index b 0) (index_lt b 0 low) ne)
changed_walk hhdm (suc i) root m m' c New b low t ch ne =
    let p = load_pte m (slot hhdm root (index b (suc i))) in
    rw (ch.slots (index b (suc i)) (index_lt b (suc i) low) ne) (elim (Bool-cases p.present) [
      | inl on ↦
          ap (λ w. if p.present then w else none)
            (walk-Same hhdm b (suc i) (next_table p) m m' low
              (t.sub (index b (suc i)) (index_lt b (suc i) low) on)
              (ch.subs (index b (suc i)) (index_lt b (suc i) low) ne on))
      | inr off ↦ rw (off) refl
    ])
