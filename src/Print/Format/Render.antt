-- ===== src/Print/Format/Render.antt =====
-- A format is a sequence of pieces, and is printed piece by piece.
use aos_kernel.Base.{
  ℕ, ◌%◌, ◌^◌, ◌≡◌, ◌≢◌, refl, false, Option, none, some, List, [], ◌∷◌, ◌++◌, ==_of_ne,
}
use aos_kernel.Print.Digits.{◌>>=◌, print_d, print_x}
use aos_kernel.Print.Format.{
  Arg, str, int, ptr, chr, extend32, kprint_xd, print_p, convert, format_loop, kprintf, printf,
}

pub data Piece : Type 0 where
  lit : (c : ℕ) → c ≢ b'%' → Piece
  percent : Piece
  string : List ℕ → Piece
  dec : ℕ → Piece
  hexa : ℕ → Piece
  pointer : ℕ → Piece
  char : ℕ → Piece

-- The format that the pieces are written as, and their arguments.
abbrev pub format : List Piece → List ℕ
format [] = []
format (lit c _ ∷ ps) = c ∷ format ps
format (percent ∷ ps) = b'%' ∷ b'%' ∷ format ps
format (string s ∷ ps) = b'%' ∷ b's' ∷ format ps
format (dec w ∷ ps) = b'%' ∷ b'd' ∷ format ps
format (hexa w ∷ ps) = b'%' ∷ b'x' ∷ format ps
format (pointer p ∷ ps) = b'%' ∷ b'p' ∷ format ps
format (char b ∷ ps) = b'%' ∷ b'c' ∷ format ps

abbrev pub arguments : List Piece → List Arg
arguments [] = []
arguments (lit c _ ∷ ps) = arguments ps
arguments (percent ∷ ps) = arguments ps
arguments (string s ∷ ps) = str s ∷ arguments ps
arguments (dec w ∷ ps) = int w ∷ arguments ps
arguments (hexa w ∷ ps) = int w ∷ arguments ps
arguments (pointer p ∷ ps) = ptr p ∷ arguments ps
arguments (char b ∷ ps) = chr b ∷ arguments ps

-- What one piece prints.
abbrev pub piece_text : (ℕ → Option (List ℕ)) → Piece → Option (List ℕ)
piece_text hex (lit c _) = some (c ∷ [])
piece_text hex percent = some (b'%' ∷ [])
piece_text hex (string s) = some s
piece_text hex (dec w) = print_d (extend32 w)
piece_text hex (hexa w) = hex (extend32 w)
piece_text hex (pointer p) = print_x p >>= λ out. some (b'0' ∷ b'x' ∷ out)
piece_text hex (char b) = some (b ∷ [])

abbrev pub render : (ℕ → Option (List ℕ)) → List Piece → Option (List ℕ)
render hex [] = some []
render hex (p ∷ ps) = piece_text hex p >>= λ text. render hex ps >>= λ out. some (text ++ out)

-- A conversion that prints `text` and goes on behind its argument.
converted :
    (text : Option (List ℕ)) (go : List Arg → Option (List ℕ)) (args : List Arg)
    {rest : Option (List ℕ)}
    → go args ≡ rest
    → ((text >>= λ out. some (out, args)) >>= λ (r : List ℕ × List Arg).
        go r.1 >>= λ out. some (r.0 ++ out))
      ≡ (text >>= λ t. rest >>= λ out. some (t ++ out))
converted none go args e = refl
converted (some t) go args e = rw e

format_loop-render :
    (hex : ℕ → Option (List ℕ)) (ps : List Piece)
    → format_loop hex false (format ps) (arguments ps) ≡ render hex ps
unfolding format_loop convert print_p
format_loop-render hex [] = refl
format_loop-render hex (lit c ne ∷ ps) = rw (==_of_ne c b'%' ne, format_loop-render hex ps)
format_loop-render hex (percent ∷ ps) = rw (format_loop-render hex ps)
format_loop-render hex (string s ∷ ps) = rw (format_loop-render hex ps)
format_loop-render hex (dec w ∷ ps) =
    converted (print_d (extend32 w)) (λ args. format_loop hex false (format ps) args) (arguments ps)
      (format_loop-render hex ps)
format_loop-render hex (hexa w ∷ ps) =
    converted (hex (extend32 w)) (λ args. format_loop hex false (format ps) args) (arguments ps)
      (format_loop-render hex ps)
format_loop-render hex (pointer p ∷ ps) =
    converted (print_x p >>= λ out. some (b'0' ∷ b'x' ∷ out))
      (λ args. format_loop hex false (format ps) args) (arguments ps) (format_loop-render hex ps)
format_loop-render hex (char b ∷ ps) = rw (format_loop-render hex ps)

-- kprintf prints the pieces of its format in order, with each argument at its place; `%x` prints
-- the lowest 16 bits only.
pub kprintf-render :
    (ps : List Piece) → kprintf (format ps) (arguments ps) ≡ render (λ v. print_x (v % 2 ^ 16)) ps
unfolding kprintf kprint_xd
kprintf-render ps = format_loop-render kprint_xd ps

-- printf prints the pieces of its format in order, with each argument at its place.
pub printf-render : (ps : List Piece) → printf (format ps) (arguments ps) ≡ render print_x ps
unfolding printf
printf-render ps = format_loop-render print_x ps
