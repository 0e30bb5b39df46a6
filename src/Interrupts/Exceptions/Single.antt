-- ===== src/Interrupts/Exceptions/Single.antt =====
-- exception1 of kernel/idt.c, which asks for single steps and goes on.
use aos_kernel.Base.{
  ℕ, ◌+◌, ◌/◌, ◌%◌, ◌^◌, ◌≡◌, refl, Bool-cases, inl, inr, Option, some, List, [], ◌∷◌, ◌++◌, arith,
  ◌==◌, ==_iff, true, false, sym, ◌∙◌, ◌≢◌,
}
use aos_kernel.Print.Digits.{◌>>=◌}
use aos_kernel.Print.Format.{int, ptr, kprintf}
use aos_kernel.Pic.{set_bit}

abbrev pub debug_text : List ℕ
debug_text = b'1' ∷ b':' ∷ b' ' ∷ b'D' ∷ b'e' ∷ b'b' ∷ b'u' ∷ b'g' ∷ 0x0a ∷ []

abbrev pub count_format : List ℕ
count_format =
    b'C' ∷ b'a' ∷ b'l' ∷ b'l' ∷ b'e' ∷ b'd' ∷ b' ' ∷ b'd' ∷ b'e' ∷ b'b' ∷ b'u' ∷ b'g' ∷ b' ' ∷ b'%'
    ∷ b'd' ∷ b' ' ∷ b't' ∷ b'i' ∷ b'm' ∷ b'e' ∷ b's' ∷ []

abbrev pub press_text : List ℕ
press_text =
    b'P' ∷ b'r' ∷ b'e' ∷ b's' ∷ b's' ∷ b' ' ∷ b'a' ∷ b'n' ∷ b'y' ∷ b't' ∷ b'h' ∷ b'i' ∷ b'n' ∷ b'g'
    ∷ b' ' ∷ b't' ∷ b'o' ∷ b' ' ∷ b'c' ∷ b'o' ∷ b'n' ∷ b't' ∷ b'i' ∷ b'n' ∷ b'u' ∷ b'e' ∷ 0x0a ∷ []

abbrev pub flags_format : List ℕ
flags_format = b'F' ∷ b'l' ∷ b'a' ∷ b'g' ∷ b's' ∷ b':' ∷ b' ' ∷ b'%' ∷ b'p' ∷ 0x0a ∷ []

-- What the handler keeps: the counter `i`, an `int`, and `ctx->flags`.
pub record Debug : Type 0 where
  pub i : ℕ
  pub flags : ℕ

-- The counter and `ctx->flags | 0x100`.
pub debug_state : Debug → Debug
debug_state d = record { i = (d.i + 1) % 2 ^ 32; flags = set_bit 8 d.flags }

-- The text printed on the way.
pub debug_output : Debug → Option (List ℕ)
debug_output d = do
  count ← kprintf count_format (int (debug_state d).i ∷ [])
  old ← kprintf flags_format (ptr d.flags ∷ [])
  new ← kprintf flags_format (ptr (debug_state d).flags ∷ [])
  some (debug_text ++ (count ++ (press_text ++ (old ++ new))))

-- The trap flag is set behind the handler, and all other flags are as they were.
pub debug_state-flags :
    (d : Debug)
    → ((debug_state d).flags / 2 ^ 8 % 2 ≡ 1)
      × ((debug_state d).flags % 2 ^ 8 ≡ d.flags % 2 ^ 8)
      × ((debug_state d).flags / 2 ^ 9 ≡ d.flags / 2 ^ 9)
unfolding debug_state
debug_state-flags d = elim (Bool-cases (d.flags / 2 ^ 8 % 2 == 1)) [
  | inl set ↦ (let h : d.flags / 2 ^ 8 % 2 ≡ 1 = (==_iff _ 1).0 set in rw set (h, refl, refl))
  | inr clear ↦
      (let h : d.flags / 2 ^ 8 % 2 ≢ 1 = λ e. true_ne_false (sym ((==_iff _ 1).1 e) ∙ clear) in
        rw clear (omega arith, omega arith, omega arith))
]
  where
    true_ne_false : true ≡ false → ⊥
    true_ne_false q = cc
