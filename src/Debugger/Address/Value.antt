-- ===== src/Debugger/Address/Value.antt =====
-- conv_addr of a hexadecimal word is the number that it stands for.

use aos_kernel.Base.{
  ℕ, zero, suc, ◌+◌, ◌-◌, ◌*◌, ◌%◌, ◌^◌, ◌≤◌, ◌<◌, ◌≡◌, refl, sym, ap, ap₂, ◌∙◌, Bool, true, ◌||◌,
  Option, some, List, [], ◌∷◌, map, arith, ltb, ◌==◌, if◌then◌else◌, length, get_or, set, replicate,
  length-set, ltb_of_lt, Bool-cases, inl, inr, ◌≢◌, subst, get_or-set_self, get_or-set_ne,
}
use aos_kernel.Memory.{Mem}
use aos_kernel.Memory.Text.{IsString}
use aos_kernel.Stdlib.Strings.Laws.{strlen-length}
use aos_kernel.Print.Digits.Numeral.{value_from, power}
use aos_kernel.Print.Format.{extend32}
use aos_kernel.Debugger.Address.{
  is_decimal, is_upper, is_lower, sum_digits, translate_hex_char, conv_digits, conv_addr,
}

-- The number that begins with `acc` and goes on with the digits `f 0` to `f (n - 1)`.
abbrev pub number : ℕ → ℕ → (ℕ → ℕ) → ℕ
number acc zero f = acc
number acc (suc n) f = number acc n f * 16 + f n

pub number-suc :
    (acc n : ℕ) (f : ℕ → ℕ) → number acc (suc n) f ≡ number (acc * 16 + f 0) n (λ i. f (suc i))
number-suc acc zero f = refl
number-suc acc (suc n) f = ap (λ v. v * 16 + f (suc n)) (number-suc acc n f)

pub number_ext :
    (acc n : ℕ) (f g : ℕ → ℕ) → ((i : ℕ) → i < n → f i ≡ g i) → number acc n f ≡ number acc n g
number_ext acc zero f g h = refl
number_ext acc (suc n) f g h =
    ap₂ (λ v d. v * 16 + d) (number_ext acc n f g (λ i l. h i (omega arith))) (h n (omega arith))

pub power_pos : (n : ℕ) → 0 < power 16 n
power_pos zero = omega arith
power_pos (suc n) = omega (arith, power_pos n)

pub power_le : (n k : ℕ) → n ≤ k → power 16 n ≤ power 16 k
power_le zero k h = omega (arith, power_pos k)
power_le (suc n) zero h = absurd (omega arith)
power_le (suc n) (suc k) h = omega (arith, power_le n k (omega arith))

extend32_small : (d : ℕ) → d < 16 → extend32 d ≡ d
extend32_small d h = ground arith

-- While nothing overflows, the loop adds the number at the weight of its last digit.
pub sum_digits-number :
    (n : ℕ) (nums : List ℕ) (mult addr : ℕ)
    → mult * power 16 n ≤ 2 ^ 64
    → addr < mult
    → ((i : ℕ) → i < n → get_or nums i 0 < 16)
    → sum_digits n nums mult addr ≡ addr + mult * number 0 n (λ i. get_or nums i 0)
unfolding sum_digits
sum_digits-number zero nums mult addr a b l = omega arith
sum_digits-number (suc zero) nums mult addr a b l =
    let d : get_or nums 0 0 < 16 = l 0 (omega arith) in grind arith
sum_digits-number (suc (suc n)) nums mult addr a b l =
    let d : get_or nums (suc n) 0 < 16 = l (suc n) (omega arith) in
    let w : mult * 16 < 2 ^ 64 = grind (arith, power_pos n) in
    let x : addr + get_or nums (suc n) 0 * mult < mult * 16 = grind arith in
    let e : mult * 16 % 2 ^ 64 ≡ mult * 16 = omega arith in
    let e' : (addr + get_or nums (suc n) 0 * mult) % 2 ^ 64 ≡ addr + get_or nums (suc n) 0 * mult =
      omega arith in
    rw (e, e')
      (sum_digits-number (suc n) nums (mult * 16) (addr + get_or nums (suc n) 0 * mult)
          (grind arith) x (λ i h. l i (omega arith))
        ∙ grind arith)

get_or-map : (nums : List ℕ) (i : ℕ) → get_or (map extend32 nums) i 0 ≡ extend32 (get_or nums i 0)
get_or-map [] i = refl
get_or-map (d ∷ nums) zero = refl
get_or-map (d ∷ nums) (suc i) = get_or-map nums i

-- A hexadecimal digit, as translate_hex_char knows them.
abbrev pub is_hex : ℕ → Bool
is_hex c = is_decimal c || is_upper c || is_lower c

abbrev pub AllHex : List ℕ → Type 0
AllHex [] = Unit {0}
AllHex (c ∷ s) = (is_hex c ≡ true) × AllHex s

stored_digit :
    (left : ℕ) (nums : List ℕ) (f : ℕ → ℕ)
    → left < length nums
    → (i : ℕ)
    → (if ltb i left then f i else get_or (set nums left (f left)) i 0)
      ≡ (if ltb i (suc left) then f i else get_or nums i 0)
stored_digit left nums f small i = elim (Bool-cases (i == left)) [
  | inl here ↦
      let e : i ≡ left = ground arith in
      rw e (ground (arith, get_or-set_self nums left (f left) 0 small))
  | inr other ↦
      let ne : left ≢ i = ground arith in ground (arith, get_or-set_ne nums left i (f left) 0 ne)
]

module _ (junk : ℕ → ℕ) where
  pub translate_hex_char-lt : (c : ℕ) → is_hex c ≡ true → translate_hex_char junk c < 16
  unfolding translate_hex_char
  translate_hex_char-lt c h = ground arith

  abbrev digit_at : ℕ → Mem → ℕ → ℕ
  digit_at in_ m i = translate_hex_char junk (m (in_ + (i + 2)))

  -- The digits stored by the first loop.
  record IsStored (left in_ : ℕ) (nums : List ℕ) (m : Mem) (result : Option (List ℕ)) : Type 0 where
    out : List ℕ
    returns : result ≡ some out
    at : (i : ℕ) → get_or out i 0 ≡ (if ltb i left then digit_at in_ m i else get_or nums i 0)

  conv_digits-IsStored :
      (left in_ : ℕ) (nums : List ℕ) (m : Mem)
      → left ≤ 16
      → length nums ≡ 16
      → IsStored left in_ nums m (conv_digits junk left in_ nums m)
  unfolding conv_digits
  conv_digits-IsStored zero in_ nums m l n = record {
    out = nums;
    returns = refl;
    at = λ i. ground arith;
  }
  conv_digits-IsStored (suc left) in_ nums m l n =
      let new = set nums left (digit_at in_ m left) in
      let rest =
        conv_digits-IsStored left in_ new m (omega arith)
          (length-set nums left (digit_at in_ m left) ∙ n) in
      record {
        out = rest.out;
        returns = rw (ltb_of_lt left 16 (omega arith)) rest.returns;
        at = λ i. rest.at i ∙ stored_digit left nums (digit_at in_ m) (omega arith) i;
      }

  abbrev pub digits_of : List ℕ → List ℕ
  digits_of s = map (translate_hex_char junk) s

  number-string :
      (m : Mem) (a acc : ℕ) (s : List ℕ)
      → IsString m a s
      → value_from 16 acc (digits_of s)
        ≡ number acc (length s) (λ i. translate_hex_char junk (m (a + i)))
  number-string m a acc [] h = refl
  number-string m a acc (c ∷ s) (e, ne, h) =
      let here : m (a + 0) ≡ c = ap m (omega arith) ∙ e in
      number-string m (a + 1) (acc * 16 + translate_hex_char junk c) s h
      ∙ number_ext (acc * 16 + translate_hex_char junk c) (length s)
          (λ i. translate_hex_char junk (m (a + 1 + i)))
          (λ i. translate_hex_char junk (m (a + suc i)))
          (λ i l. ap (λ x. translate_hex_char junk (m x)) (omega arith))
      ∙ ap
          (λ x.
            number (acc * 16 + translate_hex_char junk x) (length s)
              (λ i. translate_hex_char junk (m (a + suc i))))
          (sym here)
      ∙ sym (number-suc acc (length s) (λ i. translate_hex_char junk (m (a + i))))

  hex_at :
      (m : Mem) (a : ℕ) (s : List ℕ) (i : ℕ)
      → IsString m a s
      → AllHex s
      → i < length s
      → translate_hex_char junk (m (a + i)) < 16
  hex_at m a [] i h x l = absurd (omega arith)
  hex_at m a (c ∷ s) zero (e, ne, h) (x, xs) l =
      let here : m (a + 0) ≡ c = ap m (omega arith) ∙ e in rw here (translate_hex_char-lt c x)
  hex_at m a (c ∷ s) (suc i) (e, ne, h) (x, xs) l =
      subst (λ y. translate_hex_char junk (m y) < 16) (omega arith)
        (hex_at m (a + 1) s i h xs (omega arith))

  read_digit :
      (n in_ : ℕ) (m : Mem) (i d : ℕ)
      → i < n
      → (if ltb i (suc n) then digit_at in_ m i else d)
        ≡ translate_hex_char junk (m (in_ + 1 + 1 + i))
  read_digit n in_ m i d l =
      rw (ltb_of_lt i (suc n) (omega arith)) (ap (λ x. translate_hex_char junk (m x)) (omega arith))

  -- conv_addr of a word of `0x` and up to 15 hexadecimal digits gives the number that they stand
  -- for, whatever translate_hex_char leaves for the terminator.
  pub conv_addr-value :
      (fuel in_ : ℕ) (m : Mem) (s : List ℕ)
      → IsString m in_ (b'0' ∷ b'x' ∷ s)
      → AllHex s
      → length s ≤ 15
      → length s + 2 < fuel
      → conv_addr junk fuel in_ m ≡ some (value_from 16 0 (digits_of s))
  unfolding conv_addr
  conv_addr-value fuel in_ m s h hex short enough =
      let n : ℕ = length s in
      let st = conv_digits-IsStored (suc n) in_ (replicate 16 0) m (omega arith) refl in
      let text = h.2.2 in
      let digit = λ (i : ℕ) (l : i < n).
        get_or-map st.out i
        ∙ ap extend32 (st.at i ∙ read_digit n in_ m i (get_or (replicate 16 0) i 0) l)
        ∙ extend32_small _ (hex_at m (in_ + 1 + 1) s i text hex l) in
      let l2 : suc (suc n) + 1 - 2 ≡ suc n = omega arith in
      let l3 : suc (suc n) + 1 - 3 ≡ n = omega arith in
      rw (strlen-length fuel in_ m (b'0' ∷ b'x' ∷ s) h (omega arith), l2, l3, st.returns)
        (ap some (
          sum_digits-number n (map extend32 st.out) 1 0 (omega (arith, power_le n 15 short))
            (omega arith)
            (λ i l. subst (λ d. d < 16) (sym (digit i l)) (hex_at m (in_ + 1 + 1) s i text hex l))
          ∙ (let v = number 0 n (λ i. get_or (map extend32 st.out) i 0) in
              let e : 0 + 1 * v ≡ v = omega arith in e)
          ∙ number_ext 0 n (λ i. get_or (map extend32 st.out) i 0)
              (λ i. translate_hex_char junk (m (in_ + 1 + 1 + i))) digit
          ∙ sym (number-string m (in_ + 1 + 1) 0 s text)))
