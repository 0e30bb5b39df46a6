-- ===== src/Debugger/Commands/Print.antt =====
-- The command `print 0x…`, from the keys to the number shown.
use aos_kernel.Base.{
  ℕ, suc, ◌+◌, ◌*◌, ◌^◌, ◌≤◌, ◌<◌, ◌≡◌, ◌≢◌, refl, ap, subst, ◌∙◌, ◌⊎◌, Bool, true, false, Option,
  none, some, List, [], ◌∷◌, ◌++◌, arith, length, ◌==◌, ltb,
}
use mathlib.Core.List.{append-nil}
use aos_kernel.Memory.{Mem}
use aos_kernel.Memory.Word.{load32}
use aos_kernel.Memory.Text.{IsText}
use aos_kernel.Stdlib.Strings.Words.{is_sep}
use aos_kernel.Stdlib.Strings.Pieces.{pieces, StringsAt}
use aos_kernel.Print.Digits.Numeral.{value_from, power, IsShown, print_d-IsShown, print_x-IsShown}
use aos_kernel.Print.Digits.{◌>>=◌, dec_digit, hex_digit, print_d, print_x}
use aos_kernel.Print.Format.{extend32}
use aos_kernel.Print.Format.Render.{lit, dec, pointer, kprintf-render}
use aos_kernel.Debugger.Address.{translate_hex_char, conv_addr}
use aos_kernel.Debugger.Address.Value.{
  AllHex, digits_of, conv_addr-value, translate_hex_char-lt, power_pos, power_le,
}
use aos_kernel.Debugger.Dump.{print_int}
use aos_kernel.Debugger.Commands.{
  buf_len, Literals, all_mapped, text, again, show, int_at, perform, debug_round,
}
use aos_kernel.Debugger.Commands.Line.{edited, unwind, AllNot}
use aos_kernel.Debugger.Commands.Dispatch.{print_text, meaning, IsLoaded}
use aos_kernel.Debugger.Commands.Typed.{IsApart, Agree, debug_round-perform}

edited-unwind :
    (t s : List ℕ) → AllNot 0x08 s → length t + length s < buf_len → edited t s ≡ some (unwind s t)
edited-unwind t [] n l = let fits : ltb (length t) buf_len ≡ true = ground arith in rw fits refl
edited-unwind [] (c ∷ s) (ne, n) l =
    let other : (c == 0x08) ≡ false = ground arith in
    rw other (edited-unwind (c ∷ []) s n (omega arith))
edited-unwind (d ∷ t) (c ∷ s) (ne, n) l =
    let other : (c == 0x08) ≡ false = ground arith in
    let fits : ltb (suc (length t)) buf_len ≡ true = ground arith in
    rw (other, fits) (edited-unwind (c ∷ d ∷ t) s n (omega arith))

unwind-unwind : (s t u : List ℕ) → unwind (unwind s t) u ≡ unwind t (s ++ u)
unwind-unwind [] t u = refl
unwind-unwind (c ∷ s) t u = unwind-unwind s (c ∷ t) u

-- Hexadecimal digits are neither zero, backspace, line feed nor separators.
AllHex-IsText :
    (s : List ℕ) → AllHex s → IsText s × AllNot 0x0a s × AllNot 0x08 s × (pieces s ≡ s ∷ [])
AllHex-IsText [] h = (tt, tt, tt, refl)
AllHex-IsText (c ∷ s) (x, h) =
    let (a, b, d, e) = AllHex-IsText s h in
    let sep : is_sep c ≡ false = ground arith in
    (((λ e. ground arith), a), ((λ e. ground arith), b), ((λ e. ground arith), d), rw (sep, e) refl)

abbrev pub print_line : List ℕ → List ℕ
print_line s = b'p' ∷ b'r' ∷ b'i' ∷ b'n' ∷ b't' ∷ b' ' ∷ b'0' ∷ b'x' ∷ s

no : (c n : ℕ) → (c == n) ≡ false → c ≢ n
no c n e q = ground arith

print_line-IsText :
    (s : List ℕ)
    → AllHex s
    → IsText (print_line s)
      × AllNot 0x0a (print_line s)
      × AllNot 0x08 (print_line s)
      × (pieces (print_line s) ≡ print_text ∷ (b'0' ∷ b'x' ∷ s) ∷ [])
print_line-IsText s h =
    let (a, b, d, e) = AllHex-IsText s h in
    (
      (
        no b'p' 0 refl,
        (
          no b'r' 0 refl,
          (
            no b'i' 0 refl,
            (
              no b'n' 0 refl,
              (no b't' 0 refl, (no b' ' 0 refl, (no b'0' 0 refl, (no b'x' 0 refl, a)))),
            ),
          ),
        ),
      ),
      (
        no b'p' 0x0a refl,
        (
          no b'r' 0x0a refl,
          (
            no b'i' 0x0a refl,
            (
              no b'n' 0x0a refl,
              (no b't' 0x0a refl, (no b' ' 0x0a refl, (no b'0' 0x0a refl, (no b'x' 0x0a refl, b)))),
            ),
          ),
        ),
      ),
      (
        no b'p' 0x08 refl,
        (
          no b'r' 0x08 refl,
          (
            no b'i' 0x08 refl,
            (
              no b'n' 0x08 refl,
              (no b't' 0x08 refl, (no b' ' 0x08 refl, (no b'0' 0x08 refl, (no b'x' 0x08 refl, d)))),
            ),
          ),
        ),
      ),
      rw e refl,
    )

load32-Agree :
    (buf v : ℕ) (m after : Mem)
    → Agree buf after m
    → (v + 3 < buf) ⊎ (buf + buf_len ≤ v)
    → load32 after v ≡ load32 m v
load32-Agree buf v m after same far =
    let byte = λ (i : ℕ) (l : i < 4). same (v + i) (ground arith) in
    rw (same v (ground arith), byte 1 (omega arith), byte 2 (omega arith), byte 3 (omega arith))
      refl

-- The address in hexadecimal behind `0x`, `: `, the int of the 32 bits `w` in decimal, a line feed.
abbrev pub int_text : ℕ → ℕ → Option (List ℕ)
int_text v w = do
  address ← print_x v
  number ← print_d (extend32 w)
  some (b'0' ∷ b'x' ∷ (address ++ (b':' ∷ b' ' ∷ (number ++ (0x0a ∷ [])))))

joined :
    (x d : Option (List ℕ))
    → ((x >>= λ a. some (b'0' ∷ b'x' ∷ a)) >>= λ t.
        (((d >>= λ n. some (n ++ (0x0a ∷ []))) >>= λ o. some (b' ' ∷ o)) >>= λ o. some (b':' ∷ o))
        >>= λ o. some (t ++ o))
      ≡ (x >>= λ a. d >>= λ n. some (b'0' ∷ b'x' ∷ (a ++ (b':' ∷ b' ' ∷ (n ++ (0x0a ∷ []))))))
joined none d = refl
joined (some a) none = refl
joined (some a) (some n) = refl

print_int-text : (v : ℕ) (m : Mem) → print_int v m ≡ int_text v (load32 m v)
unfolding print_int
print_int-text v m =
    kprintf-render (
      pointer v
      ∷ lit b':' (no b':' b'%' refl)
      ∷ lit b' ' (no b' ' b'%' refl)
      ∷ dec (load32 m v)
      ∷ lit 0x0a (no 0x0a b'%' refl)
      ∷ [])
    ∙ joined (print_x v) (print_d (extend32 (load32 m v)))

value_from-lt :
    (junk : ℕ → ℕ) (acc : ℕ) (s : List ℕ)
    → AllHex s
    → value_from 16 acc (digits_of junk s) < (acc + 1) * power 16 (length s)
value_from-lt junk acc [] h = omega arith
value_from-lt junk acc (c ∷ s) (x, h) =
    let d : ℕ = translate_hex_char junk c in
    let small : d < 16 = translate_hex_char-lt junk c x in
    let rest = value_from-lt junk (acc * 16 + d) s h in
    let pos = power_pos (length s) in grind arith

-- The text that the two numbers are printed as.
abbrev pub line_text : List ℕ → List ℕ → List ℕ
line_text address number = b'0' ∷ b'x' ∷ (address ++ (b':' ∷ b' ' ∷ (number ++ (0x0a ∷ []))))

-- What is shown for the address `v` and the 32 bits `w`.
pub record IsPrinted (v w : ℕ) (out : List ℕ) : Type 0 where
  pub address : List ℕ
  pub number : List ℕ
  pub text_is : out ≡ line_text address number
  pub address_shown : IsShown 16 hex_digit v address
  pub number_shown : IsShown 10 dec_digit (extend32 w) number

int_text-IsPrinted :
    (v w : ℕ)
    → v < 2 ^ 64
    → w < 2 ^ 32
    → (out : List ℕ) × (int_text v w ≡ some out) × IsPrinted v w out
int_text-IsPrinted v w l small =
    let wide : extend32 w < 2 ^ 64 = ground arith in
    let (a, ea, sa) = print_x-IsShown v l in
    let (n, en, sn) = print_d-IsShown (extend32 w) wide in
    (
      line_text a n,
      rw (ea, en) refl,
      record { address = a; number = n; text_is = refl; address_shown = sa; number_shown = sn },
    )

module _ (fuel : ℕ) (literals : Literals) (junk : ℕ → ℕ) (mapped : ℕ → Bool) (dummy buf : ℕ) where
  -- What the two words of the line make the debugger do.
  perform-print :
      (m after : Mem) (out rest s : List ℕ)
      → AllHex s
      → length s ≤ 15
      → 17 < fuel
      → StringsAt after out (print_text ∷ (b'0' ∷ b'x' ∷ s) ∷ [])
      → Agree buf after m
      → let v = value_from 16 0 (digits_of junk s) in
        (v + 3 < buf) ⊎ (buf + buf_len ≤ v)
        → all_mapped mapped 4 v ≡ true
        → perform fuel literals junk mapped dummy
            (meaning out (print_text ∷ (b'0' ∷ b'x' ∷ s) ∷ []))
            after
            rest
          ≡ show fuel literals junk mapped dummy (int_text v (load32 m v)) after rest
  unfolding perform
  perform-print m after [] rest s hex short enough h same far there = elim h [ ]
  perform-print m after (p ∷ []) rest s hex short enough h same far there = elim (h.1) [ ]
  perform-print m after (p ∷ q ∷ []) rest s hex short enough h same far there =
      let v : ℕ = value_from 16 0 (digits_of junk s) in
      let read : conv_addr junk fuel q after ≡ some v =
        conv_addr-value junk fuel q after s h.1.0 hex short (omega arith) in
      ap (λ o. int_at fuel literals junk mapped dummy o after rest) read
      ∙ rw there (
          ap (λ o. show fuel literals junk mapped dummy o after rest)
            (print_int-text v after ∙ ap (int_text v) (load32-Agree buf v m after same far)))
  perform-print m after (p ∷ q ∷ r ∷ out) rest s hex short enough h same far there =
      elim (h.1.1) [ ]

  -- `print 0x…` with up to 15 hexadecimal digits, typed at the prompt, for an address v whose four
  -- bytes are mapped and not inside the line's buffer: the round prints `0x`, v in hexadecimal, `: `,
  -- the int at v, extended by its sign to 64 bits, as an unsigned number in decimal, and a line feed,
  -- and goes on behind the line, with the memory changed inside the buffer only. (The int at v is
  -- below 2 ^ 32, as that of four bytes is.)
  pub debug_round-print :
      (m : Mem) (s rest : List ℕ)
      → AllHex s
      → length s ≤ 15
      → let v = value_from 16 0 (digits_of junk s) in
        (v + 3 < buf) ⊎ (buf + buf_len ≤ v)
        → all_mapped mapped 4 v ≡ true
        → load32 m v < 2 ^ 32
        → buf ≢ 0
        → IsApart buf literals
        → IsLoaded m literals
        → buf_len ≤ fuel
        → (after : Mem) × (out : List ℕ) × (debug_round fuel literals junk mapped dummy buf m
              (print_line s ++ (0x0a ∷ rest))
            ≡ again (text out) after rest)
          × IsPrinted v (load32 m v) out
          × Agree buf after m
  debug_round-print m s rest hex short far there bytes nz apart loaded enough =
      let (a, b, d, e) = print_line-IsText s hex in
      let back : unwind (unwind (print_line s) []) [] ≡ print_line s =
        unwind-unwind (print_line s) [] [] ∙ append-nil (print_line s) in
      let words : pieces (unwind (unwind (print_line s) []) [])
          ≡ print_text ∷ (b'0' ∷ b'x' ∷ s) ∷ [] =
        ap pieces back ∙ e in
      let (out, after, runs, at, same) =
        debug_round-perform fuel literals junk mapped dummy buf m (print_line s)
          (unwind (print_line s) []) rest a b (edited-unwind [] (print_line s) d (omega arith))
          (rw words (omega arith)) nz apart loaded enough in
      let v : ℕ = value_from 16 0 (digits_of junk s) in
      let low : v < 2 ^ 64 =
        omega (arith, value_from-lt junk 0 s hex, power_le (length s) 15 short) in
      let (shown, prints, printed) = int_text-IsPrinted v (load32 m v) low bytes in
      (
        after,
        shown,
        runs
            ∙ ap (λ ws. perform fuel literals junk mapped dummy (meaning out ws) after rest) words
            ∙ perform-print m after out rest s hex short (omega arith)
                (subst (λ ws. StringsAt after out ws) words at) same far there
            ∙ ap (λ o. show fuel literals junk mapped dummy o after rest) prints,
        printed,
        same,
      )
