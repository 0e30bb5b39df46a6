-- ===== src/Print/Format/Tests.antt =====
-- The theorems of the format loops at a concrete format.
use aos_kernel.Base.{◌%◌, ◌^◌, ◌≡◌, List, [], ◌∷◌, arith}
use aos_kernel.Print.Digits.{print_x}
use aos_kernel.Print.Format.{kprintf}
use aos_kernel.Print.Format.Render.{
  Piece, lit, percent, string, dec, hexa, pointer, char, format, arguments, render, kprintf-render,
}

abbrev pieces : List Piece
pieces =
    lit b'a' (omega arith)
    ∷ percent
    ∷ string (b'o' ∷ b'k' ∷ [])
    ∷ dec 7
    ∷ hexa 0x12345
    ∷ pointer 0xbeef
    ∷ char b'!'
    ∷ []

kprintf-render_example :
    kprintf (format pieces) (arguments pieces) ≡ render (λ v. print_x (v % 2 ^ 16)) pieces
kprintf-render_example = kprintf-render pieces
