-- ===== src/Paging/Tables/Space/Trail.antt =====
-- The tables on the way of an address through a tree.
use aos_kernel.Base.{
  ℕ, zero, suc, ◌+◌, ◌<◌, refl, sym, subst, inl, inr, List, [], ◌∷◌, arith, Bool-cases,
  if◌then◌else◌,
}
use aos_kernel.Memory.{Mem}
use aos_kernel.Paging.Pool.Chain.{NotIn, InMap, Distinct}
use aos_kernel.Paging.Tables.{load_pte, next_table, index, entry_at}
use aos_kernel.Paging.Tables.Map.Shape.{pages, In, Apart, AreTables}
use aos_kernel.Paging.Tables.Space.{user_end, Inside, IsTree, NotFree}
use aos_kernel.Paging.Tables.Space.Frame.{index_lt}

not_in : (q : ℕ) (xs : List ℕ) → ¬ In q xs → NotIn q xs
not_in q [] h = tt
not_in q (x ∷ xs) h = (λ e. h (inl e), not_in q xs (λ i. h (inr i)))

module _ (hhdm address : ℕ) (low : address < user_end) where
  pages_inside :
      (n root : ℕ) (m : Mem) (q : ℕ)
      → IsTree hhdm n root m
      → In q (pages hhdm address n root m)
      → Inside hhdm n root m q
  pages_inside zero root m q t x = elim x [ ]
  pages_inside (suc i) root m q t (inl e) = inl e
  pages_inside (suc i) root m q t (inr x) =
      let p = load_pte m (entry_at hhdm address root i) in
      let rest = pages hhdm address i (next_table p) m in
      elim (Bool-cases p.present) [
        | inl on ↦ inr (
          index address i,
          index_lt address i low,
          on,
          pages_inside i (next_table p) m q (t.sub (index address i) (index_lt address i low) on)
              (subst (λ b. In q (if b then rest else [])) on x),
        )
        | inr off ↦ absurd (subst (λ b. In q (if b then rest else [])) off x)
      ]

  pages-InMap :
      (n root : ℕ) (m : Mem) → IsTree hhdm n root m → InMap hhdm (pages hhdm address n root m)
  pages-InMap zero root m t = tt
  pages-InMap (suc i) root m t =
      let p = load_pte m (entry_at hhdm address root i) in
      let rest = pages hhdm address i (next_table p) m in
      (
        t.aligned,
        omega arith,
        t.room,
        elim (Bool-cases p.present) [
          | inl on ↦
              subst (λ b. InMap hhdm (if b then rest else [])) (sym on)
                (pages-InMap i (next_table p) m
                  (t.sub (index address i) (index_lt address i low) on))
          | inr off ↦ subst (λ b. InMap hhdm (if b then rest else [])) (sym off) tt
        ],
      )

  pages-Distinct :
      (n root : ℕ) (m : Mem) → IsTree hhdm n root m → Distinct (pages hhdm address n root m)
  pages-Distinct zero root m t = tt
  pages-Distinct (suc i) root m t =
      let p = load_pte m (entry_at hhdm address root i) in
      let rest = pages hhdm address i (next_table p) m in
      elim (Bool-cases p.present) [
        | inl on ↦
            (let next = t.sub (index address i) (index_lt address i low) on in
              subst
                (λ b.
                  NotIn (root + hhdm) (if b then rest else []) × Distinct (if b then rest else []))
                (sym on)
                (
                  not_in (root + hhdm) rest (λ x.
                      t.own (index address i) (index_lt address i low) on
                        (pages_inside i (next_table p) m (root + hhdm) next x)),
                  pages-Distinct i (next_table p) m next,
                ))
        | inr off ↦
            subst
              (λ b.
                NotIn (root + hhdm) (if b then rest else []) × Distinct (if b then rest else []))
              (sym off) (tt, tt)
      ]

  pages-Apart : (ps fs : List ℕ) → ((q : ℕ) → In q ps → NotIn q fs) → Apart ps fs
  pages-Apart [] fs h = tt
  pages-Apart (p ∷ ps) fs h = (h p (inl refl), pages-Apart ps fs (λ q x. h q (inr x)))

  pub tree-AreTables :
      (n root : ℕ) (m : Mem) (fs : List ℕ)
      → IsTree hhdm n root m
      → NotFree hhdm n root m fs
      → AreTables (pages hhdm address n root m) fs hhdm
  tree-AreTables n root m fs t free = record {
    in_map = pages-InMap n root m t;
    distinct = pages-Distinct n root m t;
    used =
        pages-Apart (pages hhdm address n root m) fs (λ q x. free q (pages_inside n root m q t x));
  }
