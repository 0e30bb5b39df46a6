-- ===== src/Keyboard.antt =====
-- kernel/pic.c: the shift state and the character buffer between the keyboard interrupt and its
-- readers, with irq1_handler of kernel/idt.c, which fills the buffer.
mod Keymap
pub mod Inv
pub mod Refine
pub mod Irq
pub mod Interleave
mod Tests
pub use Keymap.{kbd_us}
use aos_kernel.Base.{
  ℕ, ◌+◌, ◌-◌, ◌%◌, ◌^◌, Bool, true, false, not, ◌&&◌, ◌||◌, Option, none, some, List, ltb, ◌==◌,
  if◌then◌else◌, get_or, set,
}

abbrev pub buffer_len : ℕ
buffer_len = 500

-- The file's globals. A char is its byte, from 0 to 255.
pub record Keyboard : Type 0 where
  pub readhead : ℕ
  pub writehead : ℕ
  pub buffer : List ℕ
  pub shiftl : Bool
  pub shiftr : Bool
  pub avail : ℕ

-- A press or release of a shift key is consumed; the result says so.
pub shift : ℕ → Keyboard → Bool × Keyboard
shift code k =
    if code == 0x2a
    then (true, record k { shiftl = true })
    else if code == 0x36
    then (true, record k { shiftr = true })
    else if code == 0xaa
    then (true, record k { shiftl = false })
    else if code == 0xb6
    then (true, record k { shiftr = false })
    else (false, k)

pub is_shift : Keyboard → Bool
is_shift k = k.shiftl || k.shiftr

-- A full buffer drops the character. `avail` is a uint16_t.
pub write_char : ℕ → Keyboard → Keyboard
write_char c k = if (k.readhead == k.writehead) && not (k.avail == 0) then k else record k {
  buffer = set k.buffer k.writehead c;
  writehead = (k.writehead + 1) % buffer_len;
  avail = (k.avail + 1) % 2 ^ 16;
}

-- `none` while the reader spins on `avail == 0`. `avail--` runs only at `avail ≢ 0`.
pub kgetc : Keyboard → Option (ℕ × Keyboard)
kgetc k =
    if k.avail == 0
    then none
    else some (
      get_or k.buffer k.readhead 0,
      record k {
        buffer = set k.buffer k.readhead 0;
        readhead = (k.readhead + 1) % buffer_len;
        avail = k.avail - 1;
      },
    )

-- The character of a key, with the shift modifier. `val > 80` compares signed chars.
pub key_char : ℕ → Bool → ℕ
key_char input shifted =
    let val = get_or kbd_us input 0 in
    if shifted && (ltb 80 val && ltb val 128) then val - 32 else val

-- irq1_handler on the byte read from port 0x60. The acknowledgement that it sends at the end,
-- `outb(PIC1_COMMAND, PIC_EOI)`, has no effect on this state.
pub irq1_handler : ℕ → Keyboard → Keyboard
irq1_handler input k =
    let (shifted, k') = shift input k in
    if not shifted && ltb input 127 then write_char (key_char input (is_shift k')) k' else k'
