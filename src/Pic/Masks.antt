-- ===== src/Pic/Masks.antt =====
-- Which interrupt lines are masked after a call, where each data port gives the mask that was
-- last sent to it.
use aos_kernel.Base.{
  ℕ, ◌-◌, ◌/◌, ◌%◌, ◌^◌, ◌<◌, ◌≡◌, refl, Bool, true, false, ◌&&◌, not, List, [], ◌∷◌, arith, ltb,
  ◌==◌, if◌then◌else◌, check_below, check_below_lem, ap, ◌∙◌, Bool-cases, inl, inr, ==_of_ne,
  ltb_of_lt,
}
use aos_kernel.Pic.{pic_init, pic1_data, set_bit, clear_bit, pic_mask_irq, pic_unmask_irq}

-- The two masks as the ports give them.
abbrev pub ports : ℕ → ℕ → ℕ → ℕ
ports mask1 mask2 port = if port == pic1_data then mask1 else mask2

-- Sending a mask to its controller.
abbrev pub receive : List (ℕ × ℕ) → ℕ × ℕ → ℕ × ℕ
receive [] masks = masks
receive ((port, value) ∷ sent) masks =
    receive sent (if port == pic1_data then (value, masks.1) else (masks.0, value))

-- Line `irq` of the sixteen is masked.
abbrev pub is_masked : ℕ → ℕ × ℕ → Bool
is_masked irq masks =
    if ltb irq 8 then masks.0 / 2 ^ irq % 2 == 1 else masks.1 / 2 ^ (irq - 8) % 2 == 1

abbrev same : Bool → Bool → Bool
same true b = b
same false b = not b

same_sound : (a b : Bool) → same a b ≡ true → a ≡ b
same_sound true true h = refl
same_sound true false h = ground arith
same_sound false true h = ground arith
same_sound false false h = refl

-- Bit `irq` of a byte after bit `num` was set or cleared.
abbrev row : ℕ → ℕ → ℕ → Bool
row num irq mask =
    same (set_bit num mask / 2 ^ irq % 2 == 1)
      (if irq == num then true else mask / 2 ^ irq % 2 == 1)
    && same (clear_bit num mask / 2 ^ irq % 2 == 1)
        (if irq == num then false else mask / 2 ^ irq % 2 == 1)

table :
    check_below 8 (λ num. check_below 8 (λ irq. check_below 256 (λ mask. row num irq mask))) ≡ true
unfolding check_below
table = refl

bits :
    (num irq mask : ℕ)
    → num < 8
    → irq < 8
    → mask < 256
    → ((set_bit num mask / 2 ^ irq % 2 == 1)
        ≡ (if irq == num then true else mask / 2 ^ irq % 2 == 1))
      × ((clear_bit num mask / 2 ^ irq % 2 == 1)
          ≡ (if irq == num then false else mask / 2 ^ irq % 2 == 1))
bits num irq mask a b c =
    let r =
      check_below_lem 256 (λ mask. row num irq mask) mask
        (check_below_lem 8 (λ irq. check_below 256 (λ mask. row num irq mask)) irq
          (check_below_lem 8
            (λ num. check_below 8 (λ irq. check_below 256 (λ mask. row num irq mask))) num table a)
          b)
        c in
    (same_sound _ _ (ground (arith, r)), same_sound _ _ (ground (arith, r)))

module _ (num irq mask1 mask2 : ℕ) (n : num < 16) (i : irq < 16) (s : mask1 < 256)
    (t : mask2 < 256) where
  -- Masking one of the sixteen lines masks that line and leaves the others as they were.
  pub pic_mask_irq-masked :
      is_masked irq (receive (pic_mask_irq num (ports mask1 mask2)) (mask1, mask2))
      ≡ (if irq == num then true else is_masked irq (mask1, mask2))
  unfolding pic_mask_irq
  pic_mask_irq-masked = elim (Bool-cases (ltb num 8)) [
    | inl low ↦ rw low (elim (Bool-cases (ltb irq 8)) [
      | inl here ↦ rw here (bits num irq mask1 (ground arith) (ground arith) s).0
      | inr there ↦ rw (there, ==_of_ne irq num (ground arith)) refl
    ])
    | inr high ↦
        rw (high, ltb_of_lt num 16 n)
          (elim (Bool-cases (ltb irq 8)) [
            | inl there ↦ rw (there, ==_of_ne irq num (ground arith)) refl
            | inr here ↦
                let e : (irq - 8 == num - 8) ≡ (irq == num) = ground arith in
                rw here (
                  (bits (num - 8) (irq - 8) mask2 (ground arith) (ground arith) t).0
                  ∙ ap (λ b. if b then true else mask2 / 2 ^ (irq - 8) % 2 == 1) e)
          ])
  ]

  -- Unmasking one of the sixteen lines unmasks that line and leaves the others as they were.
  pub pic_unmask_irq-masked :
      is_masked irq (receive (pic_unmask_irq num (ports mask1 mask2)) (mask1, mask2))
      ≡ (if irq == num then false else is_masked irq (mask1, mask2))
  unfolding pic_unmask_irq
  pic_unmask_irq-masked = elim (Bool-cases (ltb num 8)) [
    | inl low ↦ rw low (elim (Bool-cases (ltb irq 8)) [
      | inl here ↦ rw here (bits num irq mask1 (ground arith) (ground arith) s).1
      | inr there ↦ rw (there, ==_of_ne irq num (ground arith)) refl
    ])
    | inr high ↦
        rw (high, ltb_of_lt num 16 n)
          (elim (Bool-cases (ltb irq 8)) [
            | inl there ↦ rw (there, ==_of_ne irq num (ground arith)) refl
            | inr here ↦
                let e : (irq - 8 == num - 8) ≡ (irq == num) = ground arith in
                rw here (
                  (bits (num - 8) (irq - 8) mask2 (ground arith) (ground arith) t).1
                  ∙ ap (λ b. if b then false else mask2 / 2 ^ (irq - 8) % 2 == 1) e)
          ])
  ]

all_lines : check_below 16 (λ i. is_masked i (0xff, 0xff)) ≡ true
unfolding check_below
all_lines = refl

-- After pic_init every line is masked.
pub pic_init-masked :
    (irq mask1 mask2 : ℕ) → irq < 16 → is_masked irq (receive pic_init (mask1, mask2)) ≡ true
unfolding pic_init
pic_init-masked irq mask1 mask2 h =
    check_below_lem 16 (λ i. is_masked i (0xff, 0xff)) irq all_lines h
