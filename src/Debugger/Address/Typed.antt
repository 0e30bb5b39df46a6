-- ===== src/Debugger/Address/Typed.antt =====
-- get_addr of a typed line.
use aos_kernel.Base.{
  ℕ, zero, suc, ◌+◌, ◌-◌, ◌*◌, ◌≤◌, ◌<◌, ◌≡◌, ◌≢◌, refl, sym, ap, subst, ◌∙◌, inl, inr, Bool-cases,
  true, false, some, List, [], ◌∷◌, ◌++◌, arith, length, length-set, get_or, get_or-set_self,
  get_or-set_ne, set, replicate, leb, ltb, ◌==◌, if◌then◌else◌, ◌&&◌,
}
use aos_kernel.Print.Digits.Numeral.{value_from}
use aos_kernel.Debugger.Address.{
  is_decimal, is_upper, is_lower, sum_digits, translate_hex_char, get_digits, get_addr,
}
use aos_kernel.Debugger.Address.Value.{
  AllHex, number, number-suc, number_ext, power_le, sum_digits-number, translate_hex_char-lt,
  digits_of,
}

abbrev digit : ℕ → ℕ
digit c = translate_hex_char (λ _. 0) c

-- The array after the characters of `s` are stored from index `k` on.
abbrev fill : ℕ → List ℕ → List ℕ → List ℕ
fill k nums [] = nums
fill k nums (c ∷ s) = fill (k + 1) (set nums k (digit c)) s

get_digits-fill :
    (s : List ℕ) (k : ℕ) (nums rest : List ℕ)
    → AllHex s
    → k + length s ≤ 16
    → get_digits k nums (s ++ (0x0a ∷ rest)) ≡ some (k + length s, fill k nums s, rest)
unfolding get_digits translate_hex_char
get_digits-fill [] k nums rest h l = ap (λ n. some (n, nums, rest)) (omega arith)
get_digits-fill (c ∷ s) k nums rest (x, h) l =
    let line : (c == 0x0a) ≡ false = ground arith in
    let room : (k == 16) ≡ false = ground arith in
    let d : (if is_decimal c
          then set nums k (c - b'0')
          else if is_upper c
          then set nums k (c - b'A' + 10)
          else if is_lower c
          then set nums k (c - b'a' + 10)
          else nums)
        ≡ set nums k (digit c) =
      ground arith in
    rw (line, room, d)
      (get_digits-fill s (k + 1) (set nums k (digit c)) rest h (omega arith)
        ∙ ap (λ n. some (n, fill (k + 1) (set nums k (digit c)) s, rest)) (omega arith))

fill_at :
    (s : List ℕ) (k : ℕ) (nums : List ℕ) (i : ℕ)
    → k + length s ≤ length nums
    → get_or (fill k nums s) i 0
      ≡ (if leb k i && ltb i (k + length s) then digit (get_or s (i - k) 0) else get_or nums i 0)
fill_at [] k nums i h = ground arith
fill_at (c ∷ s) k nums i h =
    fill_at s (k + 1) (set nums k (digit c)) i (omega (arith, length-set nums k (digit c)))
    ∙ elim (Bool-cases (i == k)) [
      | inl here ↦
          let e : i ≡ k = ground arith in
          let z : k - k ≡ 0 = omega arith in
          rw (e, z) (ground (arith, get_or-set_self nums k (digit c) 0 (omega arith)))
      | inr other ↦
          let ne : k ≢ i = ground arith in
          rw (get_or-set_ne nums k i (digit c) 0 ne) (later i k (ground arith))
    ]
  where
    later :
        (i k : ℕ)
        → i ≢ k
        → (if leb (k + 1) i && ltb i (k + 1 + length s)
            then digit (get_or s (i - (k + 1)) 0)
            else get_or nums i 0)
          ≡ (if leb k i && ltb i (k + suc (length s))
              then digit (get_or (c ∷ s) (i - k) 0)
              else get_or nums i 0)
    later i k ne = elim (Bool-cases (leb k i)) [
      | inl low ↦ let e : i - k ≡ suc (i - (k + 1)) = ground arith in rw e (ground arith)
      | inr high ↦ ground arith
    ]

number-list :
    (acc : ℕ) (ds : List ℕ) → value_from 16 acc ds ≡ number acc (length ds) (λ i. get_or ds i 0)
number-list acc [] = refl
number-list acc (d ∷ ds) =
    number-list (acc * 16 + d) ds ∙ sym (number-suc acc (length ds) (λ i. get_or (d ∷ ds) i 0))

zeros : ℕ → List ℕ
zeros n = replicate n 0

get_or-zeros : (n i : ℕ) → get_or (zeros n) i 0 ≡ 0
unfolding zeros
get_or-zeros zero i = refl
get_or-zeros (suc n) zero = refl
get_or-zeros (suc n) (suc i) = get_or-zeros n i

get_or-map_digit :
    (s : List ℕ) (i : ℕ) → i < length s → digit (get_or s i 0) ≡ get_or (digits_of (λ _. 0) s) i 0
get_or-map_digit [] i h = absurd (omega arith)
get_or-map_digit (c ∷ s) zero h = refl
get_or-map_digit (c ∷ s) (suc i) h = get_or-map_digit s i (omega arith)

length-digits_of : (s : List ℕ) → length (digits_of (λ _. 0) s) ≡ length s
length-digits_of [] = refl
length-digits_of (c ∷ s) = ap suc (length-digits_of s)

AllHex-lt : (s : List ℕ) (i : ℕ) → AllHex s → get_or (digits_of (λ _. 0) s) i 0 < 16
AllHex-lt [] i h = omega arith
AllHex-lt (c ∷ s) zero h = translate_hex_char-lt (λ _. 0) c h.0
AllHex-lt (c ∷ s) (suc i) h = AllHex-lt s i h.1

get_or-beyond : (ds : List ℕ) (i : ℕ) → length ds ≤ i → get_or ds i 0 ≡ 0
get_or-beyond [] i h = refl
get_or-beyond (d ∷ ds) zero h = absurd (omega arith)
get_or-beyond (d ∷ ds) (suc i) h = get_or-beyond ds i (omega arith)

-- The digits as they stand in the array.
filled :
    (s : List ℕ)
    → length s ≤ 16
    → (i : ℕ) → get_or (fill 0 (replicate 16 0) s) i 0 ≡ get_or (digits_of (λ _. 0) s) i 0
unfolding zeros
filled s short i =
    fill_at s 0 (replicate 16 0) i (omega arith) ∙ elim (Bool-cases (ltb i (length s))) [
      | inl inside ↦
          let low : leb 0 i ≡ true = ground arith in
          let bound : ltb i (0 + length s) ≡ true = ground arith in
          let e : i - 0 ≡ i = omega arith in
          rw (low, bound, e) (get_or-map_digit s i (ground arith))
      | inr outside ↦
          let bound : ltb i (0 + length s) ≡ false = ground arith in
          let low : leb 0 i ≡ true = ground arith in
          rw (low, bound)
            (get_or-zeros 16 i
              ∙ sym (get_or-beyond (digits_of (λ _. 0) s) i (ground (arith, length-digits_of s))))
    ]

-- The sum over the first `k` places.
sum_filled :
    (s : List ℕ) (k : ℕ)
    → AllHex s
    → length s ≤ 16
    → k ≤ 16
    → sum_digits k (fill 0 (replicate 16 0) s) 1 0
      ≡ number 0 k (λ i. get_or (digits_of (λ _. 0) s) i 0)
sum_filled s k h short le =
    let v = number 0 k (λ i. get_or (fill 0 (replicate 16 0) s) i 0) in
    let whole : 0 + 1 * v ≡ v = omega arith in
    sum_digits-number k (fill 0 (replicate 16 0) s) 1 0 (omega (arith, power_le k 16 le))
      (omega arith) (λ i l. subst (λ d. d < 16) (sym (filled s short i)) (AllHex-lt s i h))
    ∙ whole
    ∙ number_ext 0 k (λ i. get_or (fill 0 (replicate 16 0) s) i 0)
        (λ i. get_or (digits_of (λ _. 0) s) i 0) (λ i l. filled s short i)

number-digits_of :
    (s : List ℕ)
    → number 0 (length s) (λ i. get_or (digits_of (λ _. 0) s) i 0)
      ≡ value_from 16 0 (digits_of (λ _. 0) s)
number-digits_of s =
    ap (λ n. number 0 n (λ i. get_or (digits_of (λ _. 0) s) i 0)) (sym (length-digits_of s))
    ∙ sym (number-list 0 (digits_of (λ _. 0) s))

-- What is typed at the prompt of get_addr: up to 16 hexadecimal digits and a line feed. With all
-- 16 digits the result is the number that they stand for; with fewer it is 16 times that number.
pub get_addr-value :
    (s rest : List ℕ)
    → AllHex s
    → length s ≤ 16
    → let v = value_from 16 0 (digits_of (λ _. 0) s) in
      get_addr (s ++ (0x0a ∷ rest)) ≡ some (if length s == 16 then v else v * 16, rest)
unfolding get_addr
get_addr-value s rest h short =
    let ds = digits_of (λ _. 0) s in
    let start : 0 + length s ≡ length s = omega arith in
    rw (get_digits-fill s 0 (replicate 16 0) rest h (omega arith), start)
      (elim (Bool-cases (length s == 16)) [
        | inl all ↦
            let n : length s ≡ 16 = ground arith in
            rw all (
              ap (λ v. some (v, rest))
                (sum_filled s 16 h short (omega arith)
                  ∙ ap (λ k. number 0 k (λ i. get_or ds i 0)) (sym n)
                  ∙ number-digits_of s))
        | inr less ↦
            let n : length s + 1 ≡ suc (length s) = omega arith in
            rw (less, n)
              (ap (λ v. some (v, rest))
                (sum_filled s (suc (length s)) h short (ground arith)
                  ∙ omega (
                    arith,
                    number-digits_of s,
                    get_or-beyond ds (length s) (omega (arith, length-digits_of s)),
                  )))
      ])
