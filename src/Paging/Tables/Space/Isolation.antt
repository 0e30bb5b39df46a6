-- ===== src/Paging/Tables/Space/Isolation.antt =====
-- The frames of a tree: two pages have two frames, and no frame is free.
use aos_kernel.Base.{
  ℕ, zero, suc, ◌+◌, ◌<◌, ◌≡◌, ◌≢◌, refl, sym, ap, subst, ◌∙◌, inl, inr, false, none, some,
  if◌then◌else◌, Bool-cases,
}
use aos_kernel.Memory.{Mem}
use aos_kernel.Paging.Pte.{Pte}
use aos_kernel.Paging.Tables.{load_pte, next_table, index, entry_at}
use aos_kernel.Paging.Tables.Walk.{walk}
use aos_kernel.Paging.Tables.Space.{On, below, user_end, Within, Inside, IsTree, Differ}
use aos_kernel.Paging.Tables.Space.Frame.{true_ne_false, index_lt, Within-Inside}
use aos_kernel.Paging.Tables.Space.Change.{eq_or_ne}

none_ne_some : {e : Pte} → none ≡ some e → ⊥
none_ne_some h = cc

some_inj : {a b : Pte} → some a ≡ some b → a ≡ b
some_inj h = cc

-- What a walk through this level has found: the entry is present, and it is the last or leads on.
abbrev Step : ℕ → ℕ → ℕ → ℕ → Mem → Pte → Type 0
Step hhdm a zero root m e = load_pte m (entry_at hhdm a root zero) ≡ e
Step hhdm a (suc i) root m e =
    walk hhdm a (suc i) (next_table (load_pte m (entry_at hhdm a root (suc i)))) m ≡ some e

walk-some :
    (hhdm a i root : ℕ) (m : Mem) (e : Pte)
    → walk hhdm a (suc i) root m ≡ some e
    → On hhdm m root (index a i) × Step hhdm a i root m e
walk-some hhdm a zero root m e w =
    let p = load_pte m (entry_at hhdm a root 0) in
    elim (Bool-cases p.present) [
      | inl on ↦ (on, some_inj (ap (λ b. if b then some p else none) (sym on) ∙ w))
      | inr off ↦ absurd (none_ne_some (ap (λ b. if b then some p else none) (sym off) ∙ w))
    ]
walk-some hhdm a (suc i) root m e w =
    let p = load_pte m (entry_at hhdm a root (suc i)) in
    let rest = walk hhdm a (suc i) (next_table p) m in
    elim (Bool-cases p.present) [
      | inl on ↦ (on, ap (λ b. if b then rest else none) (sym on) ∙ w)
      | inr off ↦ absurd (none_ne_some (ap (λ b. if b then rest else none) (sym off) ∙ w))
    ]

-- The frame that a walk ends at is in the tree below its entry.
frame_below :
    (hhdm i root : ℕ) (m : Mem) (a : ℕ) (e : Pte)
    → a < user_end
    → Step hhdm a i root m e
    → Inside hhdm i (below hhdm m root (index a i)) m (next_table e + hhdm)
frame_below hhdm zero root m a e low st = (refl, ap (λ p. next_table p + hhdm) (sym st))
frame_below hhdm (suc i) root m a e low st =
    let r = below hhdm m root (index a (suc i)) in
    let (on, st') = walk-some hhdm a i r m e st in
    inr (index a i, index_lt a i low, on, frame_below hhdm i r m a e low st')

-- Two ways through the same entry part further down.
same_entry :
    (hhdm i root : ℕ) (m : Mem) (a b : ℕ) (e e' : Pte)
    → ((r : ℕ)
        → Differ a b i
        → walk hhdm a i r m ≡ some e
        → walk hhdm b i r m ≡ some e'
        → IsTree hhdm i r m
        → next_table e' ≢ next_table e)
    → index a i ≡ index b i
    → IsTree hhdm i (below hhdm m root (index a i)) m
    → Differ a b (suc i)
    → Step hhdm a i root m e
    → Step hhdm b i root m e'
    → next_table e' ≢ next_table e
same_entry hhdm zero root m a b e e' next h t (inl ne) st st' = absurd (ne h)
same_entry hhdm zero root m a b e e' next h t (inr d) st st' = elim d [ ]
same_entry hhdm (suc i) root m a b e e' next h t (inl ne) st st' = absurd (ne h)
same_entry hhdm (suc i) root m a b e e' next h t (inr d) st st' =
    next (below hhdm m root (index a (suc i))) d st
      (subst (λ j. walk hhdm b (suc i) (below hhdm m root j) m ≡ some e') (sym h) st') t

pub frames-Differ :
    (hhdm n root : ℕ) (m : Mem) (a b : ℕ) (e e' : Pte)
    → a < user_end
    → b < user_end
    → IsTree hhdm n root m
    → Differ a b n
    → walk hhdm a n root m ≡ some e
    → walk hhdm b n root m ≡ some e'
    → next_table e' ≢ next_table e
frames-Differ hhdm zero root m a b e e' la lb t d wa wb = elim d [ ]
frames-Differ hhdm (suc i) root m a b e e' la lb t d wa wb =
    let (on, st) = walk-some hhdm a i root m e wa in
    let (on', st') = walk-some hhdm b i root m e' wb in
    elim (eq_or_ne (index a i) (index b i)) [
      | inl h ↦
          same_entry hhdm i root m a b e e'
            (λ r d' wa' wb' t'. frames-Differ hhdm i r m a b e e' la lb t' d' wa' wb') h
            (t.sub (index a i) (index_lt a i la) on) d st st'
      | inr ne ↦ (λ q.
          t.apart (index a i) (index b i) (next_table e + hhdm) (index_lt a i la) (index_lt b i lb)
            ne on on' (frame_below hhdm i root m a e la st)
            (subst (Inside hhdm i (below hhdm m root (index b i)) m) (ap (λ x. x + hhdm) q)
              (frame_below hhdm i root m b e' lb st')))
    ]

-- A frame is in the tree, and is not one of its tables.
pub frame_inside :
    (hhdm n root : ℕ) (m : Mem) (a : ℕ) (e : Pte)
    → a < user_end
    → walk hhdm a n root m ≡ some e
    → Inside hhdm n root m (next_table e + hhdm)
frame_inside hhdm zero root m a e low w = absurd (none_ne_some w)
frame_inside hhdm (suc i) root m a e low w =
    let (on, st) = walk-some hhdm a i root m e w in
    inr (index a i, index_lt a i low, on, frame_below hhdm i root m a e low st)

-- At the entry that the walk takes.
same_table :
    (hhdm i root : ℕ) (m : Mem) (a : ℕ) (e : Pte)
    → ((r : ℕ)
        → walk hhdm a i r m ≡ some e
        → IsTree hhdm i r m
        → ¬ Within hhdm false i r m (next_table e + hhdm))
    → IsTree hhdm i (below hhdm m root (index a i)) m
    → Step hhdm a i root m e
    → ¬ Within hhdm false i (below hhdm m root (index a i)) m (next_table e + hhdm)
same_table hhdm zero root m a e next t st x = true_ne_false (sym x.0)
same_table hhdm (suc i) root m a e next t st x = next (below hhdm m root (index a (suc i))) st t x

pub frame_apart :
    (hhdm n root : ℕ) (m : Mem) (a : ℕ) (e : Pte)
    → a < user_end
    → walk hhdm a n root m ≡ some e
    → IsTree hhdm n root m
    → ¬ Within hhdm false n root m (next_table e + hhdm)
frame_apart hhdm zero root m a e low w t x = none_ne_some w
frame_apart hhdm (suc i) root m a e low w t (inl q) =
    let (on, st) = walk-some hhdm a i root m e w in
    t.own (index a i) (index_lt a i low) on (
      subst (Inside hhdm i (below hhdm m root (index a i)) m) q
        (frame_below hhdm i root m a e low st))
frame_apart hhdm (suc i) root m a e low w t (inr (j, l, onj, y)) =
    let (on, st) = walk-some hhdm a i root m e w in
    elim (eq_or_ne (index a i) j) [
      | inl h ↦
          same_table hhdm i root m a e (λ r w' t'. frame_apart hhdm i r m a e low w' t')
            (t.sub (index a i) (index_lt a i low) on) st
            (subst (λ c. Within hhdm false i (below hhdm m root c) m (next_table e + hhdm)) (sym h)
              y)
      | inr ne ↦
          t.apart (index a i) j (next_table e + hhdm) (index_lt a i low) l ne on onj
            (frame_below hhdm i root m a e low st)
            (Within-Inside hhdm i (below hhdm m root j) m (next_table e + hhdm) y)
    ]
