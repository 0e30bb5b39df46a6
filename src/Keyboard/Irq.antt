-- ===== src/Keyboard/Irq.antt =====
-- What the keyboard interrupt stores: which scan codes, and as which character.
use aos_kernel.Base.{
  ℕ, ◌+◌, ◌≤◌, ◌<◌, ◌≡◌, refl, Bool, true, false, not, ◌&&◌, ◌||◌, inl, inr, arith, get_or, leb,
  ltb, ◌==◌, if◌then◌else◌, check_below, check_below_lem, Bool-cases,
}
use aos_kernel.Keyboard.{Keyboard, shift, is_shift, key_char, irq1_handler, kbd_us}
use aos_kernel.Keyboard.Inv.{IsValid}
use aos_kernel.Keyboard.Refine.{contents, enqueue, write_char-enqueue}

-- The four codes by which a shift key goes down or up.
abbrev pub is_shift_code : ℕ → Bool
is_shift_code code = code == 0x2a || code == 0x36 || code == 0xaa || code == 0xb6

-- A byte that types a character.
abbrev pub types : ℕ → Bool
types input = not (is_shift_code input) && ltb input 127

shift_other : (code : ℕ) (k : Keyboard) → is_shift_code code ≡ false → shift code k ≡ (false, k)
unfolding shift
shift_other code k h = ground arith

shift_key :
    (code : ℕ) (k : Keyboard)
    → is_shift_code code ≡ true
    → ((shift code k).0 ≡ true)
      × ((shift code k).1.buffer ≡ k.buffer)
      × ((shift code k).1.readhead ≡ k.readhead)
      × ((shift code k).1.avail ≡ k.avail)
unfolding shift
shift_key code k h = ground arith

contents-irq_shift :
    (input : ℕ) (k : Keyboard)
    → is_shift_code input ≡ true
    → contents (irq1_handler input k) ≡ contents k
unfolding irq1_handler
contents-irq_shift input k h = let (taken, b, r, a) = shift_key input k h in rw taken (rw (b, r, a))

-- On a valid buffer the interrupt enqueues one character exactly for a byte below 127 that is no
-- shift key, and leaves the unread characters alone for any other byte.
pub irq1_handler-enqueue :
    (input : ℕ) {k : Keyboard}
    → IsValid k
    → contents (irq1_handler input k)
      ≡ (if types input then enqueue (key_char input (is_shift k)) (contents k) else contents k)
unfolding irq1_handler
irq1_handler-enqueue input {k} v = elim (Bool-cases (is_shift_code input)) [
  | inl key ↦ rw key (contents-irq_shift input k key)
  | inr other ↦
      rw (other, shift_other input k other)
        (elim (Bool-cases (ltb input 127)) [
          | inl low ↦ rw low (write_char-enqueue (key_char input (is_shift k)) v)
          | inr high ↦ rw high
        ])
]

-- The shift state after a byte is what the last press and release of each key say.
pub is_shift-shift :
    (code : ℕ) (k : Keyboard)
    → is_shift (shift code k).1 ≡ (
        if code == 0x2a || code == 0x36
        then true
        else if code == 0xaa
        then k.shiftr
        else if code == 0xb6
        then k.shiftl
        else is_shift k)
unfolding is_shift shift
is_shift-shift code k = ground arith

abbrev pub is_lower : ℕ → Bool
is_lower c = leb b'a' c && leb c b'z'

abbrev capital_row : ℕ → Bool
capital_row input =
    let val = get_or kbd_us input 0 in
    let key = key_char input true in
    if is_lower val then key + 32 == val && leb b'A' key && leb key b'Z' else true

capital_table : check_below 127 capital_row ≡ true
unfolding check_below key_char
capital_table = refl

-- With a shift key down, each key of a lower-case letter types the capital of that letter.
pub key_char_capital :
    (input : ℕ)
    → input < 127
    → is_lower (get_or kbd_us input 0) ≡ true
    → (key_char input true + 32 ≡ get_or kbd_us input 0)
      × (b'A' ≤ key_char input true)
      × (key_char input true ≤ b'Z')
key_char_capital input low letter =
    let row = check_below_lem 127 capital_row input capital_table low in
    capital (get_or kbd_us input 0) (key_char input true) letter row
  where
    capital :
        (val key : ℕ)
        → is_lower val ≡ true
        → (if is_lower val then key + 32 == val && leb b'A' key && leb key b'Z' else true) ≡ true
        → (key + 32 ≡ val) × (b'A' ≤ key) × (key ≤ b'Z')
    capital val key l r = ground arith
