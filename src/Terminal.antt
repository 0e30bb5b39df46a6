-- ===== src/Terminal.antt =====
-- kernel/term.c: the text screen of 25 rows of 80 entries, two bytes each, at the address `term`
-- of memory. The cursor is set through the ports of the display, kept as the list of the bytes
-- sent, each with its port.
pub mod Screen
pub mod Cursor
pub mod Clear
mod Tests
use aos_kernel.Base.{
  ℕ, zero, suc, ◌+◌, ◌-◌, ◌*◌, ◌/◌, ◌%◌, ◌^◌, List, [], ◌∷◌, ◌++◌, ◌==◌, if◌then◌else◌,
}
use aos_kernel.Memory.{Mem, store}
use aos_kernel.Stdlib.Bytes.{memcpy}

pub record Term : Type 0 where
  pub term : ℕ
  pub term_col : ℕ
  pub term_row : ℕ
  pub mem : Mem
  pub sent : List (ℕ × ℕ)

-- `&term[i]`, and the two bytes of an entry: the character, and the colours with `fg` below `bg`.
abbrev pub entry : ℕ → ℕ → ℕ
entry term i = term + 2 * i

abbrev pub set_c : ℕ → ℕ → ℕ → Mem → Mem
set_c term i c m = store m (entry term i) c

abbrev pub set_fg : ℕ → ℕ → ℕ → Mem → Mem
set_fg term i fg m = store m (entry term i + 1) (m (entry term i + 1) / 16 * 16 + fg)

abbrev pub set_bg : ℕ → ℕ → ℕ → Mem → Mem
set_bg term i bg m = store m (entry term i + 1) (m (entry term i + 1) % 16 + bg * 16)

abbrev pub vga_width : ℕ
vga_width = 80

abbrev pub vga_height : ℕ
vga_height = 25

abbrev pub black : ℕ
black = 0

abbrev pub white : ℕ
white = 15

-- `pos` is a uint16_t.
pub term_update_cursor : Term → Term
term_update_cursor t =
    let pos = (t.term_row * vga_width + t.term_col) % 2 ^ 16 in
    record t {
      sent =
          t.sent
          ++ (0x3d4, 0x0f)
            ∷ (0x3d5, pos % 2 ^ 8)
            ∷ (0x3d4, 0x0e)
            ∷ (0x3d5, pos / 2 ^ 8 % 2 ^ 8)
            ∷ [];
    }

-- With `start` and `end`, the bytes that the two reads of port 0x3D5 give.
pub term_enable_cursor : ℕ → ℕ → Term → Term
term_enable_cursor start end t = record t {
  sent =
      t.sent
      ++ (0x3d4, 0x0a)
        ∷ (0x3d5, start % 2 ^ 8 / 2 ^ 6 * 2 ^ 6 + 13)
        ∷ (0x3d4, 0x0b)
        ∷ (0x3d5, end % 2 ^ 8 / 2 ^ 5 * 2 ^ 5 + 15)
        ∷ [];
}

-- The loop of term_clear, from entry `i` on with `left` to go.
pub clear_loop : ℕ → ℕ → ℕ → Mem → Mem
clear_loop zero term i m = m
clear_loop (suc left) term i m =
    clear_loop left term (i + 1) (set_fg term i white (set_bg term i black (set_c term i 0x20 m)))

pub term_clear : Term → Term
term_clear t = term_update_cursor (record t {
  mem = clear_loop (vga_width * vga_height) t.term 0 t.mem;
  term_col = 0;
  term_row = 0;
})

-- The loop that clears the last row after a scroll.
pub clear_row_loop : ℕ → ℕ → ℕ → ℕ → Mem → Mem
clear_row_loop zero term row i m = m
clear_row_loop (suc left) term row i m =
    let index = i + row * vga_width in
    clear_row_loop left term row (i + 1)
      (set_bg term index black (set_fg term index white (set_c term index 0x20 m)))

-- `if (term_row == VGA_HEIGHT)`
pub scroll : Term → Term
scroll t =
    if t.term_row == vga_height
    then record t {
      mem =
          clear_row_loop vga_width t.term (t.term_row - 1) 0
            (memcpy t.term (entry t.term vga_width) (2 * vga_width * (vga_height - 1)) t.mem);
      term_row = t.term_row - 1;
    }
    else t

-- The two conditions on the position before the scroll.
pub advance : ℕ → Term → Term
advance c t =
    let t' = if c == 0x0a then record t { term_col = 0; term_row = t.term_row + 1 } else t in
    if t'.term_col == vga_width then record t' { term_col = 0; term_row = t'.term_row + 1 } else t'

-- `if (c != '\n')`
pub write_entry : ℕ → Term → Term
write_entry c t =
    let index = t.term_col + t.term_row * vga_width in
    if c == 0x0a then t else record t {
      mem = set_bg t.term index black (set_fg t.term index white (set_c t.term index c t.mem));
      term_col = t.term_col + 1;
    }

-- The branch for a backspace. `term_col--` runs only at `term_col > 0`.
pub erase : Term → Term
erase t = if t.term_col == 0 then t else record t {
  term_col = t.term_col - 1;
  mem = set_c t.term (t.term_row * vga_width + (t.term_col - 1)) 0x20 t.mem;
}

pub term_putchar : ℕ → Term → Term
term_putchar c t =
    if c == 0x0d
    then term_update_cursor (record t { term_col = 0 })
    else if c == 0x08
    then term_update_cursor (erase t)
    else term_update_cursor (write_entry c (scroll (advance c t)))

-- With `term`, the address that ptov gives for VGA_BUFFER, and the two reads of port 0x3D5.
pub term_init : ℕ → ℕ → ℕ → Term → Term
term_init term start end t = term_clear (term_enable_cursor start end (record t { term = term }))

-- kprint_c, once for each character of a text.
pub put_text : List ℕ → Term → Term
put_text [] t = t
put_text (c ∷ s) t = put_text s (term_putchar c t)
