-- ===== src/Debugger/Address.antt =====
-- How the debugger of kernel/debug.c reads an address: conv_addr from a word of the command line,
-- get_addr from the keyboard.
pub mod Value
pub mod RoundTrip
pub mod Typed
mod Tests
use aos_kernel.Base.{
  ℕ, zero, suc, ◌+◌, ◌-◌, ◌*◌, ◌%◌, ◌^◌, Bool, true, false, ◌&&◌, ◌||◌, not, Option, none, some,
  List, [], ◌∷◌, ltb, leb, ◌==◌, if◌then◌else◌, get_or, set, replicate, map,
}
use aos_kernel.Memory.{Mem}
use aos_kernel.Stdlib.Strings.{strlen}
use aos_kernel.Print.Digits.{◌>>=◌}
use aos_kernel.Print.Format.{extend32}

-- The three ranges of translate_hex_char. A byte above 127 is a negative `char`, in none of them.
abbrev pub is_decimal : ℕ → Bool
is_decimal c = leb b'0' c && leb c b'9'

abbrev pub is_upper : ℕ → Bool
is_upper c = leb b'A' c && leb c b'F'

abbrev pub is_lower : ℕ → Bool
is_lower c = leb b'a' c && leb c b'f'

-- The sum of the digits up to index `left - 1`, the last one first.
pub sum_digits : ℕ → List ℕ → ℕ → ℕ → ℕ
sum_digits zero nums curr_multiple addr = addr
sum_digits (suc left) nums curr_multiple addr =
    sum_digits left nums (curr_multiple * 16 % 2 ^ 64)
      ((addr + get_or nums left 0 * curr_multiple) % 2 ^ 64)

-- `junk c` is what the caller finds where translate_hex_char ends without a return.
module _ (junk : ℕ → ℕ) where
  unfoldable pub translate_hex_char : ℕ → ℕ
  translate_hex_char c =
      if is_decimal c
      then c - b'0'
      else if is_upper c
      then c - b'A' + 10
      else if is_lower c
      then c - b'a' + 10
      else junk c

  -- The first loop of conv_addr, with `left` at `i - 1`; `none` is a store behind `nums`.
  pub conv_digits : ℕ → ℕ → List ℕ → Mem → Option (List ℕ)
  conv_digits zero in_ nums m = some nums
  conv_digits (suc left) in_ nums m =
      let rest =
        conv_digits left in_ (set nums left (translate_hex_char (m (in_ + (left + 2))))) m in
      if ltb left 16 then rest else none

  -- strlen counts the terminator, which the first loop translates too. `nums` are `int`s.
  pub conv_addr : ℕ → ℕ → Mem → Option ℕ
  conv_addr fuel in_ m = do
    len ← strlen fuel in_ m
    nums ← conv_digits (len - 2) in_ (replicate 16 0) m
    some (sum_digits (len - 3) (map extend32 nums) 1 0)

-- The loop of get_addr on the characters that kgetc gives: the index and the digits at its end,
-- and the characters not read. Each character but the last is also printed.
pub get_digits : ℕ → List ℕ → List ℕ → Option (ℕ × List ℕ × List ℕ)
get_digits curr_ind nums [] = none
get_digits curr_ind nums (c ∷ input) =
    let digit =
      if is_decimal c
      then set nums curr_ind (c - b'0')
      else if is_upper c
      then set nums curr_ind (c - b'A' + 10)
      else if is_lower c
      then set nums curr_ind (c - b'a' + 10)
      else nums in
    let rest = get_digits (curr_ind + 1) digit input in
    if c == 0x0a
    then some (curr_ind, nums, input)
    else if curr_ind == 16
    then some (15, nums, input)
    else rest

-- The address and the characters not read; `none` while it waits for more.
pub get_addr : List ℕ → Option (ℕ × List ℕ)
get_addr input = do
  r ← get_digits 0 (replicate 16 0) input
  let curr_ind = if r.0 == 16 then 15 else r.0
  some (sum_digits (curr_ind + 1) r.1 1 0, r.2)
