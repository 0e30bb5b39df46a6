-- ===== src/Terminal/Cursor.antt =====
-- Where the cursor stands, and the position that the display is told.
use aos_kernel.Base.{
  ℕ, ◌+◌, ◌*◌, ◌/◌, ◌%◌, ◌^◌, ◌≤◌, ◌<◌, ◌≡◌, ap, ◌∙◌, List, [], ◌∷◌, ◌++◌, arith, ◌==◌,
  if◌then◌else◌, Bool-cases, inl, inr,
}
use aos_kernel.Terminal.{
  Term, vga_width, vga_height, term_update_cursor, scroll, advance, write_entry, term_putchar,
  erase, term_clear, term_init, put_text,
}

-- The column may stand behind the last place of a row: the wrap comes with the next character.
pub record IsValid (t : Term) : Type 0 where
  pub col_in : t.term_col ≤ vga_width
  pub row_in : t.term_row < vga_height

term_update_cursor-IsValid : (t : Term) → IsValid t → IsValid (term_update_cursor t)
unfolding term_update_cursor
term_update_cursor-IsValid t v = record { col_in = v.col_in; row_in = v.row_in }

advance_place :
    (c : ℕ) (t : Term)
    → IsValid t
    → ((advance c t).term_col < vga_width) × ((advance c t).term_row ≤ vga_height)
unfolding advance
advance_place c t v = let a = v.col_in in let b = v.row_in in ground arith

scroll_place :
    (t : Term)
    → t.term_row ≤ vga_height
    → ((scroll t).term_col ≡ t.term_col) × ((scroll t).term_row < vga_height)
unfolding scroll
scroll_place t h = ground arith

write_entry_place :
    (c : ℕ) (t : Term)
    → t.term_col < vga_width
    → ((write_entry c t).term_col ≤ vga_width) × ((write_entry c t).term_row ≡ t.term_row)
unfolding write_entry
write_entry_place c t h = ground arith

erase_place :
    (t : Term) → IsValid t → ((erase t).term_col ≤ vga_width) × ((erase t).term_row < vga_height)
unfolding erase
erase_place t v = let a = v.col_in in let b = v.row_in in ground arith

-- The state that the display is told about.
settled : ℕ → Term → Term
settled c t =
    if c == 0x0d
    then record t { term_col = 0 }
    else if c == 0x08
    then erase t
    else write_entry c (scroll (advance c t))

putchar_settled : (c : ℕ) (t : Term) → term_putchar c t ≡ term_update_cursor (settled c t)
unfolding term_putchar settled
putchar_settled c t = ground arith

settled-IsValid : (c : ℕ) (t : Term) → IsValid t → IsValid (settled c t)
unfolding settled
settled-IsValid c t v = elim (Bool-cases (c == 0x0d)) [
  | inl cr ↦ rw cr (record { col_in = omega arith; row_in = v.row_in })
  | inr other ↦ rw other (elim (Bool-cases (c == 0x08)) [
    | inl bs ↦ rw bs (record { col_in = (erase_place t v).0; row_in = (erase_place t v).1 })
    | inr plain ↦
        let (col, row) = advance_place c t v in
        let (same, row') = scroll_place (advance c t) row in
        let (col'', same') = write_entry_place c (scroll (advance c t)) (omega arith) in
        rw plain (record { col_in = col''; row_in = omega arith })
  ])
]

-- A character leaves the cursor on the screen, or behind the end of a row.
pub term_putchar-IsValid : (c : ℕ) {t : Term} → IsValid t → IsValid (term_putchar c t)
term_putchar-IsValid c {t} v =
    rw (putchar_settled c t) (term_update_cursor-IsValid (settled c t) (settled-IsValid c t v))

-- Any text leaves it there.
pub put_text-IsValid : (s : List ℕ) {t : Term} → IsValid t → IsValid (put_text s t)
unfolding put_text
put_text-IsValid [] v = v
put_text-IsValid (c ∷ s) v = put_text-IsValid s (term_putchar-IsValid c v)

pub term_init-IsValid : (term start end : ℕ) (t : Term) → IsValid (term_init term start end t)
unfolding term_init term_clear term_update_cursor
term_init-IsValid term start end t = record { col_in = omega arith; row_in = omega arith }

-- What moves the cursor of the display to a position: its low byte, then its high byte.
abbrev pub move : ℕ → List (ℕ × ℕ)
move pos = (0x3d4, 0x0f) ∷ (0x3d5, pos % 2 ^ 8) ∷ (0x3d4, 0x0e) ∷ (0x3d5, pos / 2 ^ 8) ∷ []

term_update_cursor-move :
    (t : Term)
    → IsValid t
    → (term_update_cursor t).sent ≡ t.sent ++ move (t.term_row * vga_width + t.term_col)
unfolding term_update_cursor
term_update_cursor-move t v =
    let pos = t.term_row * vga_width + t.term_col in
    let a = v.col_in in
    let b = v.row_in in
    let low : pos % 2 ^ 16 ≡ pos = omega arith in
    let high : pos / 2 ^ 8 % 2 ^ 8 ≡ pos / 2 ^ 8 = omega arith in rw (low, high)

erase_sent : (t : Term) → (erase t).sent ≡ t.sent
unfolding erase
erase_sent t = ground arith

written_sent : (c : ℕ) (t : Term) → (write_entry c (scroll (advance c t))).sent ≡ t.sent
unfolding write_entry scroll advance
written_sent c t = ground arith

settled_sent : (c : ℕ) (t : Term) → (settled c t).sent ≡ t.sent
unfolding settled
settled_sent c t = ground (arith, erase_sent t, written_sent c t)

-- After every character the display is told the new place of the cursor, in two bytes.
pub term_putchar-move :
    (c : ℕ) {t : Term}
    → IsValid t
    → (term_putchar c t).sent
      ≡ t.sent ++ move ((term_putchar c t).term_row * vga_width + (term_putchar c t).term_col)
unfolding term_update_cursor
term_putchar-move c {t} v = rw (putchar_settled c t) (
    term_update_cursor-move (settled c t) (settled-IsValid c t v)
    ∙ ap (λ sent. sent ++ move ((settled c t).term_row * vga_width + (settled c t).term_col))
        (settled_sent c t))
