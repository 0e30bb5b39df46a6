-- ===== src/Debugger/Address/RoundTrip.antt =====
-- An address that kprintf prints is read back by conv_addr.
use aos_kernel.Base.{
  ℕ, suc, ◌+◌, ◌*◌, ◌^◌, ◌≤◌, ◌<◌, ◌≡◌, ◌≢◌, refl, sym, ap, ap₂, subst, ◌∙◌, inl, inr, Bool-cases,
  true, some, List, [], ◌∷◌, map, arith, length, leb,
}
use aos_kernel.Memory.{Mem}
use aos_kernel.Memory.Text.{IsString}
use aos_kernel.Print.Digits.{◌>>=◌, hex_digit}
use aos_kernel.Print.Digits.Numeral.{value_from, Below, Leads, power, print_x-IsNumeral}
use aos_kernel.Print.Format.{print_p}
use aos_kernel.Debugger.Address.{translate_hex_char, conv_addr}
use aos_kernel.Debugger.Address.Value.{is_hex, AllHex, digits_of, conv_addr-value, power_le}

pub value_from-le : (acc : ℕ) (ds : List ℕ) → acc * power 16 (length ds) ≤ value_from 16 acc ds
value_from-le acc [] = omega arith
value_from-le acc (d ∷ ds) = grind (arith, value_from-le (acc * 16 + d) ds)

-- A number below 2 ^ 60 has at most 15 digits.
length-digits : (ds : List ℕ) → Leads ds → value_from 16 0 ds < 2 ^ 60 → length ds ≤ 15
length-digits [] l h = omega arith
length-digits (d ∷ ds) l h = elim (Bool-cases (leb (length ds) 14)) [
  | inl short ↦ ground arith
  | inr long ↦
      let p : power 16 15 ≤ power 16 (length ds) = power_le 15 (length ds) (ground arith) in
      let q = value_from-le (0 * 16 + d) ds in absurd (grind arith)
]

module _ (junk : ℕ → ℕ) where
  translate-hex_digit :
      (d : ℕ) → d < 16 → (is_hex (hex_digit d) ≡ true) × (translate_hex_char junk (hex_digit d) ≡ d)
  unfolding translate_hex_char hex_digit
  translate-hex_digit d h = ground arith

  AllHex-digits : (ds : List ℕ) → Below 16 ds → AllHex (map hex_digit ds)
  AllHex-digits [] b = tt
  AllHex-digits (d ∷ ds) (l, b) = ((translate-hex_digit d l).0, AllHex-digits ds b)

  digits_of-hex_digit : (ds : List ℕ) → Below 16 ds → digits_of junk (map hex_digit ds) ≡ ds
  digits_of-hex_digit [] b = refl
  digits_of-hex_digit (d ∷ ds) (l, b) =
      ap₂ ◌∷◌ (translate-hex_digit d l).1 (digits_of-hex_digit ds b)

  length-hex : (ds : List ℕ) → length (map hex_digit ds) ≡ length ds
  length-hex [] = refl
  length-hex (d ∷ ds) = ap suc (length-hex ds)

  -- A nonzero address below 2 ^ 60 that `%p` printed into a string is the one that conv_addr
  -- reads from that string.
  pub conv_addr-print_p :
      (fuel in_ v : ℕ) (m : Mem) (text : List ℕ)
      → v ≢ 0
      → v < 2 ^ 60
      → print_p v ≡ some text
      → IsString m in_ text
      → 17 < fuel
      → conv_addr junk fuel in_ m ≡ some v
  unfolding print_p
  conv_addr-print_p fuel in_ v m text nz small printed string enough =
      let n = print_x-IsNumeral v nz (omega arith) in
      let e : text ≡ b'0' ∷ b'x' ∷ map hex_digit n.digits =
        let h : (some (map hex_digit n.digits) >>= λ out. some (b'0' ∷ b'x' ∷ out)) ≡ some text =
          ap (λ o. o >>= λ out. some (b'0' ∷ b'x' ∷ out)) (sym n.printed) ∙ printed in
        cc in
      let short = length-digits n.digits n.leads (rw n.value small) in
      conv_addr-value junk fuel in_ m (map hex_digit n.digits)
        (subst (λ t. IsString m in_ t) e string) (AllHex-digits n.digits n.below)
        (omega (arith, length-hex n.digits)) (omega (arith, length-hex n.digits))
      ∙ ap some (ap (value_from 16 0) (digits_of-hex_digit n.digits n.below) ∙ n.value)
