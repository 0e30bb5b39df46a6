-- ===== src/Print/Digits/Numeral.antt =====
-- What a number is printed as: its numeral, which is read back as the number.

use aos_kernel.Base.{
  ℕ, zero, suc, ◌+◌, ◌*◌, ◌/◌, ◌%◌, ◌^◌, ◌<◌, ◌≡◌, ◌≢◌, refl, ap, sym, ◌∙◌, ◌⊎◌, inl, inr, Option,
  some, List, [], ◌∷◌, ◌++◌, map, arith, replicate, set, ◌==◌, Bool-cases, ==_of_ne,
}
use aos_kernel.Print.Digits.{
  ◌>>=◌, print_s, skip_zeros, dec_digit, hex_digit, put_digits, print_number, print_d, print_x,
}

-- The number that digits stand for, the most significant first.
abbrev pub value_from : ℕ → ℕ → List ℕ → ℕ
value_from base acc [] = acc
value_from base acc (d ∷ ds) = value_from base (acc * base + d) ds

abbrev pub Below : ℕ → List ℕ → Type 0
Below base [] = Unit {0}
Below base (d ∷ ds) = (d < base) × Below base ds

-- A numeral does not start with a zero.
abbrev pub Leads : List ℕ → Type 0
Leads [] = Unit {0}
Leads (d ∷ ds) = d ≢ 0

-- The printed characters are the digits of `v` in `base`, without leading padding.
pub record IsNumeral (base : ℕ) (digit : ℕ → ℕ) (v : ℕ) (out : Option (List ℕ)) : Type 0 where
  pub digits : List ℕ
  pub printed : out ≡ some (map digit digits)
  pub below : Below base digits
  pub leads : Leads digits
  pub value : value_from base 0 digits ≡ v

-- The characters are `0` for zero, and the numeral of any other number.
abbrev pub IsShown : ℕ → (ℕ → ℕ) → ℕ → List ℕ → Type 0
IsShown base digit v out = ((v ≡ 0) × (out ≡ b'0' ∷ [])) ⊎ IsNumeral base digit v (some out)

value-snoc :
    (base acc d : ℕ) (ds : List ℕ)
    → value_from base acc (ds ++ d ∷ []) ≡ value_from base acc ds * base + d
value-snoc base acc d [] = refl
value-snoc base acc d (e ∷ ds) = value-snoc base (acc * base + e) d ds

Below-snoc : (base d : ℕ) (ds : List ℕ) → Below base ds → d < base → Below base (ds ++ d ∷ [])
Below-snoc base d [] h l = (l, tt)
Below-snoc base d (e ∷ ds) h l = (h.0, Below-snoc base d ds h.1 l)

Leads-snoc :
    (base d : ℕ) (ds : List ℕ)
    → Leads ds
    → value_from base 0 ds * base + d ≢ 0
    → Leads (ds ++ d ∷ [])
Leads-snoc base d [] h ne = λ e. ne (omega arith)
Leads-snoc base d (e ∷ ds) h ne = h

set-replicate :
    (n x : ℕ) (out : List ℕ) → set (replicate (suc n) 0 ++ out) n x ≡ replicate n 0 ++ (x ∷ out)
set-replicate zero x out = refl
set-replicate (suc n) x out = ap (◌∷◌ 0) (set-replicate n x out)

-- `base ^ n` by multiplication.
abbrev pub power : ℕ → ℕ → ℕ
power base zero = 1
power base (suc n) = base * power base n

div-lt-power : (base n v : ℕ) → 0 < base → v < base * power base n → v / base < power base n
div-lt-power base n v pos h = grind arith

-- The buffer after the loop: padding, the digits of the value, what stood behind them.
record IsFilled (base : ℕ) (digit : ℕ → ℕ) (slots v : ℕ) (out : List ℕ) (result : Option (List ℕ))
    : Type 0 where
  padding : ℕ
  digits : List ℕ
  filled : result ≡ some (replicate padding 0 ++ (map digit digits ++ out))
  below : Below base digits
  leads : Leads digits
  value : value_from base 0 digits ≡ v

map-snoc :
    (digit : ℕ → ℕ) (d : ℕ) (ds out : List ℕ)
    → map digit ds ++ (digit d ∷ out) ≡ map digit (ds ++ d ∷ []) ++ out
map-snoc digit d [] out = refl
map-snoc digit d (e ∷ ds) out = ap (◌∷◌ (digit e)) (map-snoc digit d ds out)

module _ (base : ℕ) (digit : ℕ → ℕ) (pos : 0 < base) where
  IsFilled-snoc :
      (n v : ℕ) (out : List ℕ) (result : Option (List ℕ))
      → v ≢ 0
      → IsFilled base digit n (v / base) (digit (v % base) ∷ out) result
      → IsFilled base digit (suc n) v out result
  IsFilled-snoc n v out result nz rest =
      let whole : value_from base 0 rest.digits * base + v % base ≡ v =
        rw rest.value (grind arith) in
      record {
        padding = rest.padding;
        digits = rest.digits ++ v % base ∷ [];
        filled =
            rest.filled
            ∙ ap (λ z. some (replicate rest.padding 0 ++ z))
                (map-snoc digit (v % base) rest.digits out);
        below = Below-snoc base (v % base) rest.digits rest.below (grind arith);
        leads = Leads-snoc base (v % base) rest.digits rest.leads (λ e. nz (sym whole ∙ e));
        value = value-snoc base 0 (v % base) rest.digits ∙ whole;
      }

  put_digits-IsFilled :
      (slots v : ℕ) (out : List ℕ)
      → v < power base slots
      → IsFilled base digit slots v out (put_digits base digit slots v (replicate slots 0 ++ out))
  unfolding put_digits
  put_digits-IsFilled zero v out h =
      let z : v ≡ 0 = omega arith in
      rw z
        (record { padding = 0; digits = []; filled = refl; below = tt; leads = tt; value = refl })
  put_digits-IsFilled (suc n) v out h = elim (Bool-cases (v == 0)) [
    | inl e ↦
        let z : v ≡ 0 = ground arith in
        rw z (record {
          padding = suc n;
          digits = [];
          filled = refl;
          below = tt;
          leads = tt;
          value = refl;
        })
    | inr e ↦
        rw (e, set-replicate n (digit (v % base)) out)
          (IsFilled-snoc n v out _ (ground arith) (
            put_digits-IsFilled n (v / base) (digit (v % base) ∷ out)
              (div-lt-power base n v pos h)))
  ]

  module _ (visible : (d : ℕ) → d < base → digit d ≢ 0) where
    skip_zeros-replicate :
        (n d : ℕ) (s : List ℕ) → d ≢ 0 → skip_zeros (replicate n 0 ++ (d ∷ s)) ≡ some (d ∷ s)
    unfolding skip_zeros
    skip_zeros-replicate zero d s ne = rw (==_of_ne d 0 ne)
    skip_zeros-replicate (suc n) d s ne = skip_zeros-replicate n d s ne

    print_s-map :
        (ds : List ℕ) → Below base ds → print_s (map digit ds ++ (0 ∷ [])) ≡ some (map digit ds)
    unfolding print_s
    print_s-map [] b = refl
    print_s-map (d ∷ ds) (l, b) = rw (==_of_ne (digit d) 0 (visible d l), print_s-map ds b)

    shown :
        (v padding : ℕ) (ds : List ℕ)
        → v ≢ 0
        → Below base ds
        → Leads ds
        → value_from base 0 ds ≡ v
        → (skip_zeros (replicate padding 0 ++ (map digit ds ++ (0 ∷ []))) >>= print_s)
          ≡ some (map digit ds)
    shown v padding [] nz b l e = absurd (nz (sym e))
    shown v padding (d ∷ ds) nz b l e =
        rw (skip_zeros-replicate padding (digit d) (map digit ds ++ (0 ∷ [])) (visible d b.0))
          (print_s-map (d ∷ ds) b)

    print_number-IsNumeral :
        (v : ℕ) → v ≢ 0 → v < power base 20 → IsNumeral base digit v (print_number base digit v)
    unfolding print_number
    print_number-IsNumeral v nz h =
        let f = put_digits-IsFilled 20 v (0 ∷ []) h in
        rw (==_of_ne v 0 nz, f.filled)
          (record {
            digits = f.digits;
            printed = shown v f.padding f.digits nz f.below f.leads f.value;
            below = f.below;
            leads = f.leads;
            value = f.value;
          })

    print_number-IsShown :
        (v : ℕ)
        → v < power base 20
        → (out : List ℕ) × (print_number base digit v ≡ some out) × IsShown base digit v out
    unfolding print_number
    print_number-IsShown v h = elim (Bool-cases (v == 0)) [
      | inl e ↦ let z : v ≡ 0 = ground arith in (b'0' ∷ [], rw z refl, inl (z, refl))
      | inr e ↦
          let n = print_number-IsNumeral v (ground arith) h in
          (
            map digit n.digits,
            n.printed,
            inr (record {
              digits = n.digits;
              printed = refl;
              below = n.below;
              leads = n.leads;
              value = n.value;
            }),
          )
    ]

dec_visible : (d : ℕ) → d < 10 → dec_digit d ≢ 0
dec_visible d h = omega arith

hex_visible : (d : ℕ) → d < 16 → hex_digit d ≢ 0
unfolding hex_digit
hex_visible d h = ground arith

-- A nonzero 64-bit number is printed in decimal: the 20 places of the buffer are enough, the
-- digits have no leading zero, and they stand for the number.
pub print_d-IsNumeral : (v : ℕ) → v ≢ 0 → v < 2 ^ 64 → IsNumeral 10 dec_digit v (print_d v)
unfolding print_d
print_d-IsNumeral v nz h =
    print_number-IsNumeral 10 dec_digit (omega arith) dec_visible v nz (omega arith)

-- A nonzero 64-bit number is printed in hexadecimal: the 20 places of the buffer are enough, the
-- digits have no leading zero, and they stand for the number.
pub print_x-IsNumeral : (v : ℕ) → v ≢ 0 → v < 2 ^ 64 → IsNumeral 16 hex_digit v (print_x v)
unfolding print_x
print_x-IsNumeral v nz h =
    print_number-IsNumeral 16 hex_digit (omega arith) hex_visible v nz (omega arith)

pub print_d-IsShown :
    (v : ℕ) → v < 2 ^ 64 → (out : List ℕ) × (print_d v ≡ some out) × IsShown 10 dec_digit v out
unfolding print_d
print_d-IsShown v h = print_number-IsShown 10 dec_digit (omega arith) dec_visible v (omega arith)

pub print_x-IsShown :
    (v : ℕ) → v < 2 ^ 64 → (out : List ℕ) × (print_x v ≡ some out) × IsShown 16 hex_digit v out
unfolding print_x
print_x-IsShown v h = print_number-IsShown 16 hex_digit (omega arith) hex_visible v (omega arith)

-- Different hexadecimal digits are different characters.
pub hex_digit-injective : (d e : ℕ) → d < 16 → e < 16 → hex_digit d ≡ hex_digit e → d ≡ e
unfolding hex_digit
hex_digit-injective d e h k q = ground arith

pub print_x-zero : print_x 0 ≡ some (b'0' ∷ [])
unfolding print_x print_number
print_x-zero = refl
