-- ===== src/Paging/Tables/Space/Frame.antt =====
-- Memory that agrees on the tables of a tree holds the same tree.
use aos_kernel.Base.{
  ℕ, zero, suc, ◌+◌, ◌*◌, ◌%◌, ◌^◌, ◌≤◌, ◌<◌, ◌≡◌, refl, sym, ap, subst, ◌∙◌, inl, inr, true, arith,
  if◌then◌else◌, Bool-cases, ==_iff, ◌==◌, false, Bool, none,
}
use aos_kernel.Memory.{Mem}
use aos_kernel.Paging.Tables.{load_pte, next_table, index}
use aos_kernel.Paging.Tables.Walk.{walk}
use aos_kernel.Paging.Tables.Map.Shape.{load_pte-page}
use aos_kernel.Paging.Tables.Space.{width, user_end, Within, slot, On, below, Inside, IsTree}

-- The entries of a table lie in its page, and the way of an address takes one of them.
pub true_ne_false : true ≡ false → ⊥
true_ne_false h = cc

pub slot_in :
    (hhdm root j : ℕ)
    → root + hhdm + 4096 ≤ 2 ^ 64
    → j < 512
    → (root + hhdm ≤ slot hhdm root j) × (slot hhdm root j + 8 ≤ root + hhdm + 4096)
slot_in hhdm root j h l = omega arith

pub slot_eq :
    (hhdm root j : ℕ)
    → root + hhdm + 4096 ≤ 2 ^ 64
    → j < 512
    → slot hhdm root j ≡ root + hhdm + 8 * j
slot_eq hhdm root j h l = omega arith

pub in_width : (i j : ℕ) → j < width i → j < 512
in_width i j l = ground arith

pub index_lt : (address i : ℕ) → address < user_end → index address i < width i
index_lt address i low = elim (Bool-cases (i == 3)) [
  | inl e ↦ (let h : i ≡ 3 = (==_iff i 3).0 e in rw (h) omega arith)
  | inr off ↦ rw (off) omega arith
]

pub Within-aligned :
    (hhdm : ℕ) (frames : Bool) (n root : ℕ) (m : Mem) (q : ℕ)
    → IsTree hhdm n root m
    → Within hhdm frames n root m q
    → q % 4096 ≡ 0
Within-aligned hhdm frames zero root m q t x = ap (λ a. a % 4096) x.1 ∙ t.0
Within-aligned hhdm frames (suc i) root m q t (inl e) = ap (λ a. a % 4096) e ∙ t.aligned
Within-aligned hhdm frames (suc i) root m q t (inr (j, l, on, x)) =
    Within-aligned hhdm frames i (below hhdm m root j) m q (t.sub j l on) x

pub Within-room :
    (hhdm : ℕ) (frames : Bool) (n root : ℕ) (m : Mem) (q : ℕ)
    → IsTree hhdm n root m
    → Within hhdm frames n root m q
    → q + 4096 ≤ 2 ^ 64
Within-room hhdm frames zero root m q t x = subst (λ a. a + 4096 ≤ 2 ^ 64) (sym x.1) t.1
Within-room hhdm frames (suc i) root m q t (inl e) = subst (λ a. a + 4096 ≤ 2 ^ 64) (sym e) t.room
Within-room hhdm frames (suc i) root m q t (inr (j, l, on, x)) =
    Within-room hhdm frames i (below hhdm m root j) m q (t.sub j l on) x

pub Within-Inside :
    (hhdm n root : ℕ) (m : Mem) (q : ℕ) → Within hhdm false n root m q → Inside hhdm n root m q
Within-Inside hhdm zero root m q x = absurd (true_ne_false (sym x.0))
Within-Inside hhdm (suc i) root m q (inl e) = inl e
Within-Inside hhdm (suc i) root m q (inr (j, l, on, x)) =
    inr (j, l, on, Within-Inside hhdm i (below hhdm m root j) m q x)

-- The memories agree on the tables of the tree.
abbrev pub Same : ℕ → ℕ → ℕ → Mem → Mem → Type 0
Same hhdm n root m m' =
    (q : ℕ) → Within hhdm false n root m q → (x : ℕ) → q ≤ x → x < q + 4096 → m' x ≡ m x

module _ (hhdm : ℕ) where
  slot-Same :
      (i root : ℕ) (m m' : Mem)
      → IsTree hhdm (suc i) root m
      → Same hhdm (suc i) root m m'
      → (j : ℕ) → j < width i
      → load_pte m' (slot hhdm root j) ≡ load_pte m (slot hhdm root j)
  slot-Same i root m m' t same j l =
      let (lo, hi) = slot_in hhdm root j t.room (in_width i j l) in
      load_pte-page m m' (root + hhdm) (slot hhdm root j) lo hi (same (root + hhdm) (inl refl))

  below-Same :
      (i root : ℕ) (m m' : Mem) (j : ℕ)
      → j < width i
      → On hhdm m root j
      → Same hhdm (suc i) root m m'
      → Same hhdm i (below hhdm m root j) m m'
  below-Same i root m m' j l on same q h = same q (inr (j, l, on, h))

  pub Within-Same :
      (frames : Bool) (n root : ℕ) (m m' : Mem) (q : ℕ)
      → IsTree hhdm n root m
      → Same hhdm n root m m'
      → Within hhdm frames n root m' q
      → Within hhdm frames n root m q
  Within-Same frames zero root m m' q t same h = h
  Within-Same frames (suc i) root m m' q t same (inl e) = inl e
  Within-Same frames (suc i) root m m' q t same (inr (j, l, on', h')) =
      let e = slot-Same i root m m' t same j l in
      let on : On hhdm m root j = ap (λ p. p.present) (sym e) ∙ on' in
      let h : Within hhdm frames i (below hhdm m root j) m' q =
        subst (λ p. Within hhdm frames i (next_table p) m' q) e h' in
      inr (
        j,
        l,
        on,
        Within-Same frames i (below hhdm m root j) m m' q (t.sub j l on)
            (below-Same i root m m' j l on same) h,
      )

  pub walk-Same :
      (b n root : ℕ) (m m' : Mem)
      → b < user_end
      → IsTree hhdm n root m
      → Same hhdm n root m m'
      → walk hhdm b n root m' ≡ walk hhdm b n root m
  walk-Same b zero root m m' low t same = refl
  walk-Same b (suc zero) root m m' low t same =
      rw (slot-Same 0 root m m' t same (index b 0) (index_lt b 0 low)) refl
  walk-Same b (suc (suc i)) root m m' low t same =
      let e = slot-Same (suc i) root m m' t same (index b (suc i)) (index_lt b (suc i) low) in
      let p = load_pte m (slot hhdm root (index b (suc i))) in
      rw (e) (elim (Bool-cases p.present) [
        | inl on ↦
            ap (λ w. if p.present then w else none)
              (walk-Same b (suc i) (next_table p) m m' low
                (t.sub (index b (suc i)) (index_lt b (suc i) low) on)
                (below-Same (suc i) root m m' (index b (suc i)) (index_lt b (suc i) low) on same))
        | inr off ↦ rw (off) refl
      ])

  pub IsTree-Same :
      (n root : ℕ) (m m' : Mem)
      → IsTree hhdm n root m
      → Same hhdm n root m m'
      → IsTree hhdm n root m'
  IsTree-Same zero root m m' t same = t
  IsTree-Same (suc i) root m m' t same =
      let e = slot-Same i root m m' t same in
      let on = λ (j : ℕ) (l : j < width i) (h : On hhdm m' root j).
        ap (λ p. p.present) (sym (e j l)) ∙ h in
      let back =
        λ (j : ℕ) (l : j < width i) (h : On hhdm m' root j) (q : ℕ)
            (x : Inside hhdm i (below hhdm m' root j) m' q).
          Within-Same true i (below hhdm m root j) m m' q (t.sub j l (on j l h))
            (below-Same i root m m' j l (on j l h) same)
            (subst (λ p. Inside hhdm i (next_table p) m' q) (e j l) x) in
      record {
        aligned = t.aligned;
        room = t.room;
        sub = λ j l h.
            subst (λ p. IsTree hhdm i (next_table p) m') (sym (e j l))
              (IsTree-Same i (below hhdm m root j) m m' (t.sub j l (on j l h))
                (below-Same i root m m' j l (on j l h) same));
        own = λ j l h x. t.own j l (on j l h) (back j l h (root + hhdm) x);
        apart = λ j j' q l l' ne h h' x y.
            t.apart j j' q l l' ne (on j l h) (on j' l' h') (back j l h q x) (back j' l' h' q y);
      }
