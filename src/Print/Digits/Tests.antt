-- ===== src/Print/Digits/Tests.antt =====
-- Numbers as they are printed, and the theorems at concrete numbers.
use aos_kernel.Base.{◌-◌, ◌^◌, ◌≡◌, refl, some, [], ◌∷◌, arith}
use aos_kernel.Print.Digits.{
  print_s, skip_zeros, dec_digit, hex_digit, put_digits, print_number, print_d, print_x,
}
use aos_kernel.Print.Digits.Numeral.{IsNumeral, print_d-IsNumeral}

print_d_zero : print_d 0 ≡ some (b'0' ∷ [])
unfolding print_d print_number
print_d_zero = refl

print_d_number : print_d 907 ≡ some (b'9' ∷ b'0' ∷ b'7' ∷ [])
unfolding print_d print_number put_digits skip_zeros print_s
print_d_number = refl

print_x_number : print_x 0xbeef ≡ some (b'B' ∷ b'E' ∷ b'E' ∷ b'F' ∷ [])
unfolding print_x print_number put_digits skip_zeros print_s hex_digit
print_x_number = refl

-- The largest number takes all 20 places.
print_d-IsNumeral_example : IsNumeral 10 dec_digit (2 ^ 64 - 1) (print_d (2 ^ 64 - 1))
print_d-IsNumeral_example = print_d-IsNumeral (2 ^ 64 - 1) (omega arith) (omega arith)
