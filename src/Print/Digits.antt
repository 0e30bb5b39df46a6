-- ===== src/Print/Digits.antt =====
-- kprint_d and kprint_x of kernel/kprint.c, print_d and print_x of stdlib/myio.c: digits are
-- stored from the back of a buffer of 21 zero bytes, which is then printed from its first
-- nonzero byte on.
pub mod Numeral
mod Tests
use aos_kernel.Base.{
  ℕ, zero, suc, ◌+◌, ◌/◌, ◌%◌, Option, none, some, List, [], ◌∷◌, ◌==◌, if◌then◌else◌, set,
  replicate,
}

infixl 5 ◌>>=◌
abbrev pub ◌>>=◌ {ℓ κ} : {A : Type ℓ} {B : Type κ} → Option A → (A → Option B) → Option B
none >>= f = none
some a >>= f = f a

-- print_s on the bytes from a pointer on: `none` if no terminator comes.
unfoldable pub print_s : List ℕ → Option (List ℕ)
print_s [] = none
print_s (c ∷ s) = let rest = print_s s in if c == 0 then some [] else rest >>= λ out. some (c ∷ out)

-- `while (*str == '\0') str++;`, and `none` if it runs out of the buffer.
unfoldable pub skip_zeros : List ℕ → Option (List ℕ)
skip_zeros [] = none
skip_zeros (c ∷ s) = let rest = skip_zeros s in if c == 0 then rest else some (c ∷ s)

-- `char c = d + 48`
abbrev pub dec_digit : ℕ → ℕ
dec_digit d = d + 48

unfoldable pub hex_digit : ℕ → ℕ
hex_digit d =
    if d == 10
    then b'A'
    else if d == 11
    then b'B'
    else if d == 12
    then b'C'
    else if d == 13
    then b'D'
    else if d == 14
    then b'E'
    else if d == 15
    then b'F'
    else d + 48

module _ (base : ℕ) (digit : ℕ → ℕ) where
  -- The loop `while (value > 0)` with `curr` one below the first argument; `none` is a store to
  -- `buffer[-1]`.
  unfoldable pub put_digits : ℕ → ℕ → List ℕ → Option (List ℕ)
  put_digits zero value buffer = if value == 0 then some buffer else none
  put_digits (suc curr) value buffer =
      let rest = put_digits curr (value / base) (set buffer curr (digit (value % base))) in
      if value == 0 then some buffer else rest

  unfoldable pub print_number : ℕ → Option (List ℕ)
  print_number value =
      if value == 0
      then some (b'0' ∷ [])
      else do buffer ← put_digits 20 value (replicate 21 0); str ← skip_zeros buffer; print_s str

-- kprint_d and print_d.
pub print_d : ℕ → Option (List ℕ)
print_d value = print_number 10 dec_digit value

-- kprint_x and print_x.
unfoldable pub print_x : ℕ → Option (List ℕ)
print_x value = print_number 16 hex_digit value
