-- ===== src/Terminal/Clear.antt =====
-- What term_init and term_clear leave on the screen.
use aos_kernel.Base.{
  ℕ, zero, suc, ◌+◌, ◌*◌, ◌<◌, ◌≡◌, refl, ◌∙◌, ◌&&◌, arith, ltb, leb, ◌==◌, if◌then◌else◌,
}
use aos_kernel.Memory.{Mem}
use aos_kernel.Terminal.{
  Term, entry, set_c, set_fg, set_bg, white, black, clear_loop, term_clear, term_update_cursor,
  term_enable_cursor, term_init,
}
use aos_kernel.Terminal.Screen.{char_at}

-- The colours at a place of the screen.
abbrev pub colours_at : Term → ℕ → ℕ → ℕ
colours_at t r c = t.mem (entry t.term (r * 80 + c) + 1)

-- One entry cleared, seen at any entry.
blank_c :
    (term i k : ℕ) (m : Mem)
    → set_fg term i white (set_bg term i black (set_c term i 0x20 m)) (entry term k)
      ≡ (if k == i then 0x20 else m (entry term k))
blank_c term i k m = ground arith

blank_colours :
    (term i k : ℕ) (m : Mem)
    → set_fg term i white (set_bg term i black (set_c term i 0x20 m)) (entry term k + 1)
      ≡ (if k == i then 0x0f else m (entry term k + 1))
blank_colours term i k m = ground arith

clear_loop_c :
    (left term i k : ℕ) (m : Mem)
    → clear_loop left term i m (entry term k)
      ≡ (if leb i k && ltb k (i + left) then 0x20 else m (entry term k))
unfolding clear_loop
clear_loop_c zero term i k m = ground arith
clear_loop_c (suc left) term i k m =
    clear_loop_c left term (i + 1) k _ ∙ rw (blank_c term i k m) (ground arith)

clear_loop_colours :
    (left term i k : ℕ) (m : Mem)
    → clear_loop left term i m (entry term k + 1)
      ≡ (if leb i k && ltb k (i + left) then 0x0f else m (entry term k + 1))
unfolding clear_loop
clear_loop_colours zero term i k m = ground arith
clear_loop_colours (suc left) term i k m =
    clear_loop_colours left term (i + 1) k _ ∙ rw (blank_colours term i k m) (ground arith)

-- After term_init every place of the screen is a blank, white on black, and the cursor stands at
-- the first one.
pub term_init-blank :
    (term start end : ℕ) (t : Term) (r c : ℕ)
    → r < 25
    → c < 80
    → let t' = term_init term start end t in
      (char_at t' r c ≡ 0x20) × (colours_at t' r c ≡ 0x0f) × (t'.term_col ≡ 0) × (t'.term_row ≡ 0)
unfolding term_init term_clear term_update_cursor term_enable_cursor
term_init-blank term start end t r c hr hc = (
  clear_loop_c 2000 term 0 (r * 80 + c) t.mem ∙ ground arith,
  clear_loop_colours 2000 term 0 (r * 80 + c) t.mem ∙ ground arith,
  refl,
  refl,
)
