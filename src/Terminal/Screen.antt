-- ===== src/Terminal/Screen.antt =====
-- What a character does to the characters on the screen.
use aos_kernel.Base.{
  ℕ, zero, suc, ◌+◌, ◌-◌, ◌*◌, ◌^◌, ◌≤◌, ◌<◌, ◌≡◌, refl, ap, ◌∙◌, ◌&&◌, arith, ltb, leb, ◌==◌,
  if◌then◌else◌, Bool-cases, inl, inr,
}
use aos_kernel.Memory.{Mem}
use aos_kernel.Stdlib.Bytes.Laws.{memcpy_lem}
use aos_kernel.Terminal.{
  Term, entry, set_c, set_fg, set_bg, white, black, vga_width, term_update_cursor, clear_row_loop,
  scroll, advance, write_entry, erase, term_putchar,
}
use aos_kernel.Terminal.Cursor.{IsValid}

-- The character at a place of the screen.
abbrev pub char_at : Term → ℕ → ℕ → ℕ
char_at t r c = t.mem (entry t.term (r * vga_width + c))

-- One entry written, seen at the character of any entry.
write_c :
    (term i k ch : ℕ) (m : Mem)
    → set_bg term i black (set_fg term i white (set_c term i ch m)) (entry term k)
      ≡ (if k == i then ch else m (entry term k))
write_c term i k ch m = ground arith

clear_row_c :
    (left term row i : ℕ) (m : Mem) (k : ℕ)
    → clear_row_loop left term row i m (entry term k) ≡ (
        if leb (i + row * vga_width) k && ltb k (i + row * vga_width + left)
        then 0x20
        else m (entry term k))
unfolding clear_row_loop
clear_row_c zero term row i m k = ground arith
clear_row_c (suc left) term row i m k =
    clear_row_c left term row (i + 1) _ k
    ∙ rw (write_c term (i + row * vga_width) k 0x20 m) (ground arith)

-- The screen as rows of characters.
abbrev pub Rows : Type 0
Rows = ℕ → ℕ → ℕ

abbrev pub put_at : ℕ → ℕ → ℕ → Rows → Rows
put_at row col ch v r c = if (r == row) && (c == col) then ch else v r c

-- All rows go up by one, and the last one is blank.
abbrev pub up : Rows → Rows
up v r c = if r == 24 then 0x20 else v (r + 1) c

-- A line feed goes to the next row, and so does a character behind the end of a row.
abbrev pub next_place : ℕ → ℕ → ℕ → ℕ × ℕ
next_place ch row col =
    if ch == 0x0a then (row + 1, 0) else if col == 80 then (row + 1, 0) else (row, col)

-- A character printed at the place `row`, `col`.
abbrev pub print_at : ℕ → ℕ → ℕ → Rows → Rows
print_at ch row col v r c = if ch == 0x0a then v r c else put_at row col ch v r c

-- The rows after a character, with the cursor at `row`, `col` before it.
abbrev pub rows_after : ℕ → ℕ → ℕ → Rows → Rows
rows_after ch row col v r c =
    let (row', col') = next_place ch row col in
    if ch == 0x0d
    then v r c
    else if ch == 0x08
    then (if col == 0 then v r c else put_at row (col - 1) 0x20 v r c)
    else if row' == 25
    then print_at ch 24 col' (up v) r c
    else print_at ch row' col' v r c

-- The place that the copy of a scroll reads for a place above the last row.
moved :
    (t : Term) (r c : ℕ)
    → r < 25
    → c < 80
    → (if leb (0 + 24 * 80) (r * 80 + c) && ltb (r * 80 + c) (0 + 24 * 80 + 80)
        then 0x20
        else (if leb t.term (entry t.term (r * 80 + c))
              && ltb (entry t.term (r * 80 + c)) (t.term + 3840)
            then t.mem (entry t.term 80 + (entry t.term (r * 80 + c) - t.term))
            else t.mem (entry t.term (r * 80 + c))))
      ≡ up (char_at t) r c
moved t r c hr hc =
    let e : entry t.term 80 + (entry t.term (r * 80 + c) - t.term)
        ≡ entry t.term ((r + 1) * 80 + c) =
      omega arith in
    rw e (ground arith)

scroll_view :
    (t : Term) (r c : ℕ)
    → t.term + 4000 ≤ 2 ^ 64
    → r < 25
    → c < 80
    → char_at (scroll t) r c ≡ (if t.term_row == 25 then up (char_at t) r c else char_at t r c)
unfolding scroll
scroll_view t r c fits hr hc = elim (Bool-cases (t.term_row == 25)) [
  | inl last ↦
      let e : t.term_row - 1 ≡ 24 = ground arith in
      rw (last, e)
        (clear_row_c 80 t.term 24 0 _ (r * 80 + c)
          ∙ rw
              (memcpy_lem t.term (entry t.term 80) 3840 t.mem (entry t.term (r * 80 + c))
                (omega arith) (omega arith) (inl (omega arith)))
              (moved t r c hr hc))
  | inr other ↦ rw other refl
]

advance_view : (ch : ℕ) (t : Term) (r c : ℕ) → char_at (advance ch t) r c ≡ char_at t r c
unfolding advance
advance_view ch t r c = ground arith

advance_next :
    (ch : ℕ) (t : Term)
    → ((advance ch t).term_row ≡ (next_place ch t.term_row t.term_col).0)
      × ((advance ch t).term_col ≡ (next_place ch t.term_row t.term_col).1)
      × ((advance ch t).term ≡ t.term)
unfolding advance
advance_next ch t = ground arith

write_view :
    (ch : ℕ) (t : Term) (r c : ℕ)
    → t.term_col < 80
    → c < 80
    → char_at (write_entry ch t) r c ≡ print_at ch t.term_row t.term_col (char_at t) r c
unfolding write_entry
write_view ch t r c h hc = ground arith

erase_view :
    (t : Term) (r c : ℕ)
    → t.term_col ≤ 80
    → c < 80
    → char_at (erase t) r c ≡ (
        if t.term_col == 0
        then char_at t r c
        else put_at t.term_row (t.term_col - 1) 0x20 (char_at t) r c)
unfolding erase
erase_view t r c h hc = ground arith

-- Where a character that is neither a carriage return nor a backspace is written.
scroll_next :
    (t : Term)
    → ((scroll t).term_row ≡ (if t.term_row == 25 then 24 else t.term_row))
      × ((scroll t).term_col ≡ t.term_col)
      × ((scroll t).term ≡ t.term)
unfolding scroll
scroll_next t = ground arith

print_up :
    (ch row col : ℕ) (v w x : Rows) (r c : ℕ)
    → w r c ≡ (if row == 25 then up v r c else v r c)
    → v r c ≡ x r c
    → v (r + 1) c ≡ x (r + 1) c
    → print_at ch (if row == 25 then 24 else row) col w r c
      ≡ (if row == 25 then print_at ch 24 col (up x) r c else print_at ch row col x r c)
print_up ch row col v w x r c h e f = ground arith

print_view :
    (ch : ℕ) (t : Term) (r c : ℕ)
    → t.term + 4000 ≤ 2 ^ 64
    → t.term_col ≤ 80
    → r < 25
    → c < 80
    → let (row', col') = next_place ch t.term_row t.term_col in
      char_at (write_entry ch (scroll (advance ch t))) r c ≡ (
        if row' == 25
        then print_at ch 24 col' (up (char_at t)) r c
        else print_at ch row' col' (char_at t) r c)
unfolding advance
print_view ch t r c fits hcol hr hc =
    let (row, col, same) = advance_next ch t in
    let (row', col', same') = scroll_next (advance ch t) in
    write_view ch (scroll (advance ch t)) r c (ground arith) hc
    ∙ rw (row', col', row, col)
        (print_up ch (next_place ch t.term_row t.term_col).0 (next_place ch t.term_row t.term_col).1
          (char_at (advance ch t)) (char_at (scroll (advance ch t))) (char_at t) r c
          (scroll_view (advance ch t) r c (ground arith) hr hc
            ∙ ap
                (λ n.
                  if n == 25 then up (char_at (advance ch t)) r c else char_at (advance ch t) r c)
                row)
          (advance_view ch t r c) (advance_view ch t (r + 1) c))

-- On a screen that does not wrap round the address space, with the cursor on it, a character
-- leaves the rows that it should: a carriage return changes nothing, a backspace blanks the place
-- before the cursor in its row, a line feed and the wrap behind the end of a row scroll the rows
-- up at the last row, and any other character stands at the place of the cursor.
pub term_putchar-rows :
    (ch : ℕ) {t : Term} (r c : ℕ)
    → IsValid t
    → t.term + 4000 ≤ 2 ^ 64
    → r < 25
    → c < 80
    → char_at (term_putchar ch t) r c ≡ rows_after ch t.term_row t.term_col (char_at t) r c
unfolding term_putchar term_update_cursor
term_putchar-rows ch {t} r c v fits hr hc = elim (Bool-cases (ch == 0x0d)) [
  | inl cr ↦ rw cr refl
  | inr other ↦ rw other (elim (Bool-cases (ch == 0x08)) [
    | inl bs ↦ rw bs (erase_view t r c v.col_in hc)
    | inr plain ↦ rw plain (print_view ch t r c fits v.col_in hr hc)
  ])
]
