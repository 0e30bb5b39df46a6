-- ===== src/Keyboard/Inv.antt =====
-- The representation invariant of the character buffer, and that every operation keeps it.
use aos_kernel.Base.{ℕ, ◌+◌, ◌%◌, ◌≤◌, ◌<◌, ◌≡◌, some, arith, length, length-set}
use aos_kernel.Keyboard.{
  Keyboard, buffer_len, shift, is_shift, key_char, write_char, kgetc, irq1_handler,
}

pub record IsValid (k : Keyboard) : Type 0 where
  pub storage : length k.buffer ≡ buffer_len
  pub read_in : k.readhead < buffer_len
  pub avail_in : k.avail ≤ buffer_len
  pub heads : k.writehead ≡ (k.readhead + k.avail) % buffer_len

-- Storing a character keeps the invariant, also when the buffer is full.
pub write_char-IsValid : (c : ℕ) {k : Keyboard} → IsValid k → IsValid (write_char c k)
unfolding write_char
write_char-IsValid c {k} v = ground (arith, length-set k.buffer k.writehead c)

pub kgetc-IsValid :
    {k : Keyboard} {c : ℕ} {k' : Keyboard} → IsValid k → kgetc k ≡ some (c, k') → IsValid k'
unfolding kgetc
kgetc-IsValid {k} v e = ground (arith, length-set k.buffer k.readhead 0)

pub shift-IsValid : (code : ℕ) {k : Keyboard} → IsValid k → IsValid (shift code k).1
unfolding shift
shift-IsValid code v = ground arith

-- The keyboard interrupt keeps the invariant, whatever byte the port gives.
pub irq1_handler-IsValid : (input : ℕ) {k : Keyboard} → IsValid k → IsValid (irq1_handler input k)
unfolding irq1_handler
irq1_handler-IsValid input {k} v =
    let w = shift-IsValid input v in
    ground (arith, w, write_char-IsValid (key_char input (is_shift (shift input k).1)) w)
