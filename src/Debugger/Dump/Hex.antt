-- ===== src/Debugger/Dump/Hex.antt =====
-- A hexadecimal dump shows every byte by two digits, also where `%x` prints one.
use mathlib.Core.List.{append-nil, append_assoc}
use aos_kernel.Base.{
  ℕ, zero, suc, ◌+◌, ◌*◌, ◌/◌, ◌%◌, ◌^◌, ◌<◌, ◌≡◌, ◌≢◌, refl, sym, ap, ◌∙◌, inl, inr, Bool-cases,
  Option, none, some, List, [], ◌∷◌, ◌++◌, arith, length, leb, if◌then◌else◌,
}
use aos_kernel.Memory.{Mem}
use aos_kernel.Memory.Word.{IsBytes}
use aos_kernel.Print.Digits.{◌>>=◌, hex_digit, print_x}
use aos_kernel.Print.Digits.Numeral.{value_from, Below, Leads, print_x-IsNumeral, print_x-zero}
use aos_kernel.Print.Format.{int, ptr, kprintf, print_p}
use aos_kernel.Print.Format.Render.{lit, hexa, pointer, kprintf-render}
use aos_kernel.Debugger.Address.Value.{power_pos}
use aos_kernel.Debugger.Address.RoundTrip.{value_from-le}
use aos_kernel.Debugger.Dump.{hex_cell, dump_cell, dump_cells, dump_rows, dump_mem, hexdump}

abbrev pub two_digits : ℕ → List ℕ
two_digits v = hex_digit (v / 16) ∷ hex_digit (v % 16) ∷ []

-- The digits of a nonzero byte.
byte_digits :
    (v : ℕ) (ds : List ℕ)
    → v ≢ 0
    → v < 256
    → Below 16 ds
    → Leads ds
    → value_from 16 0 ds ≡ v
    → ds ≡ (if leb v 0xf then v ∷ [] else v / 16 ∷ v % 16 ∷ [])
byte_digits v [] nz h b l e = absurd (nz (sym e))
byte_digits v (d ∷ []) nz h b l e = ground arith
byte_digits v (d ∷ d' ∷ []) nz h b l e = ground arith
byte_digits v (d ∷ d' ∷ d'' ∷ ds) nz h b l e =
    let p = value_from-le (((0 * 16 + d) * 16 + d') * 16 + d'') ds in
    absurd (grind (arith, power_pos (length ds)))

hex_digit-zero : hex_digit 0 ≡ b'0'
unfolding hex_digit
hex_digit-zero = refl

-- The padding of a byte.
abbrev pad : ℕ → List ℕ
pad v = if leb v 0xf then b'0' ∷ [] else []

-- What `%x` prints for a byte, behind the padding.
print_x-pos :
    (v : ℕ) → v ≢ 0 → v < 256 → (print_x v >>= λ out. some (pad v ++ out)) ≡ some (two_digits v)
print_x-pos v nz h =
    let n = print_x-IsNumeral v nz (omega arith) in
    let e = byte_digits v n.digits nz h n.below n.leads n.value in
    rw (n.printed, e)
      (elim (Bool-cases (leb v 0xf)) [
        | inl small ↦
            let q : v / 16 ≡ 0 = ground arith in
            let r : v % 16 ≡ v = ground arith in rw (small, q, r, hex_digit-zero) refl
        | inr large ↦ rw large refl
      ])

print_x-byte : (v : ℕ) → v < 256 → (print_x v >>= λ out. some (pad v ++ out)) ≡ some (two_digits v)
print_x-byte zero h = rw (print_x-zero, hex_digit-zero) refl
print_x-byte (suc u) h = print_x-pos (suc u) (λ e. absurd (omega arith)) h

kprintf-space : kprintf (b' ' ∷ []) [] ≡ some (b' ' ∷ [])
kprintf-space = kprintf-render (lit b' ' (omega arith) ∷ [])

kprintf-zero : kprintf (b'0' ∷ []) [] ≡ some (b'0' ∷ [])
kprintf-zero = kprintf-render (lit b'0' (omega arith) ∷ [])

kprintf-hex :
    (v : ℕ)
    → v < 256
    → kprintf (b'%' ∷ b'x' ∷ []) (int v ∷ []) ≡ (print_x v >>= λ text. some (text ++ []))
kprintf-hex v h =
    kprintf-render (hexa v ∷ []) ∙ ap (λ w. print_x w >>= λ text. some (text ++ [])) (ground arith)

joined :
    (o : Option (List ℕ)) (padding : List ℕ) (c : ℕ)
    → ((o >>= λ text. some (text ++ [])) >>= λ digits. some (c ∷ (padding ++ digits)))
      ≡ ((o >>= λ out. some (padding ++ out)) >>= λ text. some (c ∷ text))
joined none padding c = refl
joined (some text) padding c = rw (append-nil text) refl

kprintf-pad : (v : ℕ) → (if leb v 0xf then kprintf (b'0' ∷ []) [] else some []) ≡ some (pad v)
kprintf-pad v = rw kprintf-zero (ground arith)

hex_cell-digits : (v : ℕ) → v < 256 → hex_cell v ≡ some (b' ' ∷ two_digits v)
unfolding hex_cell
hex_cell-digits v h =
    rw (kprintf-space, kprintf-pad v, kprintf-hex v h)
      (joined (print_x v) (pad v) b' '
        ∙ ap (λ o. o >>= λ text. some (b' ' ∷ text)) (print_x-byte v h))

-- The bytes of a row: a space and two digits each.
abbrev pub hex_bytes : ℕ → ℕ → Mem → List ℕ
hex_bytes zero a m = []
hex_bytes (suc n) a m = b' ' ∷ (two_digits (m (a % 2 ^ 64)) ++ hex_bytes n (a + 1) m)

dump_cells-hex : (n a : ℕ) (m : Mem) → IsBytes m → dump_cells hexdump n a m ≡ some (hex_bytes n a m)
unfolding dump_cells dump_cell
dump_cells-hex zero a m h = refl
dump_cells-hex (suc n) a m h =
    rw (hex_cell-digits (m (a % 2 ^ 64)) (h (a % 2 ^ 64)), dump_cells-hex n (a + 1) m h) refl

-- The whole dump, with the address of each row as `%p` prints it.
abbrev pub hex_rows : ℕ → ℕ → ℕ → Mem → Option (List ℕ)
hex_rows cols zero a m = some []
hex_rows cols (suc n) a m = do
  address ← print_p (a % 2 ^ 64)
  rest ← hex_rows cols n (a + cols) m
  some (address ++ (b':' ∷ (hex_bytes cols a m ++ (0x0a ∷ rest))))

kprintf-line : kprintf (0x0a ∷ []) [] ≡ some (0x0a ∷ [])
kprintf-line = kprintf-render (lit 0x0a (omega arith) ∷ [])

kprintf-header :
    (a : ℕ)
    → kprintf (b'%' ∷ b'p' ∷ b':' ∷ []) (ptr a ∷ [])
      ≡ (print_p a >>= λ text. some (text ++ (b':' ∷ [])))
unfolding print_p
kprintf-header a = kprintf-render (pointer a ∷ lit b':' (omega arith) ∷ [])

-- The parts of a row, joined the two ways.
row_joined :
    (o rest : Option (List ℕ)) (cells : List ℕ)
    → ((o >>= λ t. some (t ++ (b':' ∷ []))) >>= λ h.
        rest >>= λ r. some (h ++ (cells ++ (0x0a ∷ r))))
      ≡ (o >>= λ address. rest >>= λ r. some (address ++ (b':' ∷ (cells ++ (0x0a ∷ r)))))
row_joined none rest cells = refl
row_joined (some t) none cells = refl
row_joined (some t) (some r) cells = ap some (append_assoc t (b':' ∷ []) (cells ++ (0x0a ∷ r)))

dump_rows-hex :
    (cols n a : ℕ) (m : Mem) → IsBytes m → dump_rows hexdump cols n a m ≡ hex_rows cols n a m
unfolding dump_rows
dump_rows-hex cols zero a m h = refl
dump_rows-hex cols (suc n) a m h =
    rw
      (
        kprintf-header (a % 2 ^ 64),
        kprintf-line,
        dump_cells-hex cols a m h,
        dump_rows-hex cols n (a + cols) m h,
      )
      (row_joined (print_p (a % 2 ^ 64)) (hex_rows cols n (a + cols) m) (hex_bytes cols a m))

-- A hexadecimal dump prints, for each row, the address of its first byte, a colon, and for each
-- of its bytes a space and exactly two hexadecimal digits, also for bytes below 16.
pub dump_mem-hex :
    (start rows cols : ℕ) (m : Mem)
    → IsBytes m
    → dump_mem start hexdump rows cols m ≡ hex_rows cols rows start m
unfolding dump_mem
dump_mem-hex start rows cols m h = dump_rows-hex cols rows start m h
