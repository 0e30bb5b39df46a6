-- ===== src/Terminal/Tests.antt =====
-- Runs of the screen code, and its theorems at a concrete screen.
use aos_kernel.Base.{◌+◌, ◌*◌, ◌≡◌, refl, [], arith}
use aos_kernel.Terminal.{Term, term_putchar, term_update_cursor, write_entry, scroll, advance}
use aos_kernel.Terminal.Cursor.{IsValid}
use aos_kernel.Terminal.Screen.{char_at, rows_after, term_putchar-rows}

-- The last place of the screen is taken: the next character scrolls.
abbrev full : Term
full = record {
  term = 0xffff8000000b8000;
  term_col = 80;
  term_row = 24;
  mem = λ x. 0x41;
  sent = [];
}

full-IsValid : IsValid full
full-IsValid = record { col_in = omega arith; row_in = omega arith }

scrolled_place :
    (term_putchar b'x' full).term_row * 80 + (term_putchar b'x' full).term_col ≡ 24 * 80 + 1
unfolding term_putchar term_update_cursor write_entry scroll advance
scrolled_place = refl

term_putchar-rows_example :
    char_at (term_putchar b'x' full) 24 0 ≡ rows_after b'x' 24 80 (char_at full) 24 0
term_putchar-rows_example =
    term_putchar-rows b'x' 24 0 full-IsValid (omega arith) (omega arith) (omega arith)
