-- ===== src/Paging/Tables/Space/Blank.antt =====
-- A zeroed page is a tree of tables, of which no other page is a part.
use aos_kernel.Base.{ℕ, zero, suc, ◌+◌, ◌-◌, ◌%◌, ◌^◌, ◌≤◌, ◌<◌, ◌≡◌, ap, sym, ◌∙◌, inl, inr, arith}
use aos_kernel.Memory.{Mem}
use aos_kernel.Memory.Word.{load64-zero}
use aos_kernel.Paging.Pte.Laws.{decode-zero}
use aos_kernel.Paging.Pte.{decode}
use aos_kernel.Paging.Tables.Space.{slot, On, Inside, IsTree}
use aos_kernel.Paging.Tables.Space.Frame.{true_ne_false, slot_in, in_width}

module _ (hhdm f : ℕ) (m : Mem) (al : f % 4096 ≡ 0) (lo : hhdm ≤ f) (hi : f + 4096 ≤ 2 ^ 64)
    (zeroed : (x : ℕ) → f ≤ x → x < f + 4096 → m x ≡ 0) where
  blank_off : (j : ℕ) → j < 512 → On hhdm m (f - hhdm) j → ⊥
  blank_off j l on =
      let (p, q) = slot_in hhdm (f - hhdm) j (omega arith) l in
      let word =
        load64-zero m (slot hhdm (f - hhdm) j) (λ x a b. zeroed x (omega arith) (omega arith)) in
      true_ne_false (sym on ∙ ap (λ w. (decode w).present) word ∙ decode-zero)

  pub blank-IsTree : (n : ℕ) → IsTree hhdm n (f - hhdm) m
  blank-IsTree zero = omega arith
  blank-IsTree (suc i) = record {
    aligned = omega arith;
    room = omega arith;
    sub = λ j l on. absurd (blank_off j (in_width i j l) on);
    own = λ j l on x. blank_off j (in_width i j l) on;
    apart = λ j j' q l l' ne on on' x y. blank_off j (in_width i j l) on;
  }

  pub blank_inside : (n q : ℕ) → Inside hhdm n (f - hhdm) m q → q ≡ f
  blank_inside zero q x = omega arith
  blank_inside (suc i) q (inl e) = omega arith
  blank_inside (suc i) q (inr (j, l, on, x)) = absurd (blank_off j (in_width i j l) on)
