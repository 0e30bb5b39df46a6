-- ===== src/Debugger/Address/Tests.antt =====
-- Addresses as the debugger reads them, and its theorems at concrete texts.
use aos_kernel.Base.{ℕ, ◌-◌, ◌≡◌, refl, some, List, [], ◌∷◌, arith, get_or, leb, if◌then◌else◌}
use aos_kernel.Memory.{Mem}
use aos_kernel.Memory.Text.{IsString}
use aos_kernel.Print.Format.{print_p}
use aos_kernel.Print.Digits.{hex_digit, skip_zeros, put_digits, print_s, print_number, print_x}
use aos_kernel.Debugger.Address.{translate_hex_char, conv_addr, get_addr}
use aos_kernel.Debugger.Address.RoundTrip.{conv_addr-print_p}
use aos_kernel.Debugger.Address.Typed.{get_addr-value}

abbrev word : List ℕ
word = b'0' ∷ b'x' ∷ b'1' ∷ b'F' ∷ b'e' ∷ []

-- `word` stands at 100.
abbrev page : Mem
page x = if leb 100 x then get_or word (x - 100) 0 else 7

page-word : IsString page 100 word
page-word = omega arith

abbrev printed : Mem
printed x = if leb 100 x then get_or (b'0' ∷ b'x' ∷ b'1' ∷ b'F' ∷ b'E' ∷ []) (x - 100) 0 else 7

printed_1fe : print_p 0x1fe ≡ some (b'0' ∷ b'x' ∷ b'1' ∷ b'F' ∷ b'E' ∷ [])
unfolding print_p print_x print_number put_digits skip_zeros print_s hex_digit
printed_1fe = refl

conv_addr-print_p_example : conv_addr (λ _. 9) 20 100 printed ≡ some 0x1fe
conv_addr-print_p_example =
    conv_addr-print_p (λ _. 9) 20 100 0x1fe printed (b'0' ∷ b'x' ∷ b'1' ∷ b'F' ∷ b'E' ∷ [])
      (omega arith) (omega arith) printed_1fe (omega arith) (omega arith)

get_addr-value_example : get_addr (b'1' ∷ b'F' ∷ 0x0a ∷ b'q' ∷ []) ≡ some (0x1f0, b'q' ∷ [])
unfolding translate_hex_char
get_addr-value_example =
    get_addr-value (b'1' ∷ b'F' ∷ []) (b'q' ∷ []) (refl, (refl, tt)) (omega arith)
