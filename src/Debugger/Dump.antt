-- ===== src/Debugger/Dump.antt =====
-- dump_mem, print_int, print_string and dump_stack of kernel/debug.c, as the text that they print.
pub mod Hex
mod Tests
use aos_kernel.Base.{
  ℕ, zero, suc, ◌+◌, ◌*◌, ◌%◌, ◌^◌, Bool, Option, none, some, List, [], ◌∷◌, ◌++◌, leb, ◌==◌,
  if◌then◌else◌,
}
use aos_kernel.Memory.{Mem}
use aos_kernel.Memory.Word.{load32}
use aos_kernel.Stdlib.Strings.{strlen}
use aos_kernel.Print.Digits.{◌>>=◌}
use aos_kernel.Print.Format.{int, ptr, chr, kprintf}

abbrev pub hexdump : ℕ
hexdump = 0

abbrev pub decdump : ℕ
decdump = 1

abbrev pub chardump : ℕ
chardump = 2

-- The branch of a hexadecimal dump for one byte.
pub hex_cell : ℕ → Option (List ℕ)
hex_cell val = do
  space ← kprintf (b' ' ∷ []) []
  pad ← (if leb val 0xf then kprintf (b'0' ∷ []) [] else some [])
  digits ← kprintf (b'%' ∷ b'x' ∷ []) (int val ∷ [])
  some (space ++ (pad ++ digits))

-- What is printed for one byte.
pub dump_cell : ℕ → ℕ → Option (List ℕ)
dump_cell flag val =
    if flag == hexdump
    then hex_cell val
    else if flag == decdump
    then kprintf (b' ' ∷ b'%' ∷ b'd' ∷ []) (int val ∷ [])
    else kprintf (b' ' ∷ b'%' ∷ b'c' ∷ []) (chr val ∷ [])

-- The inner loop, from address `a` on with `left` columns to go.
pub dump_cells : ℕ → ℕ → ℕ → Mem → Option (List ℕ)
dump_cells flag zero a m = some []
dump_cells flag (suc left) a m = do
  cell ← dump_cell flag (m (a % 2 ^ 64))
  rest ← dump_cells flag left (a + 1) m
  some (cell ++ rest)

-- The outer loop; `a` is `p + cols * i`. The product is an int; the calls keep it below 2 ^ 31.
pub dump_rows : ℕ → ℕ → ℕ → ℕ → Mem → Option (List ℕ)
dump_rows flag cols zero a m = some []
dump_rows flag cols (suc left) a m = do
  header ← kprintf (b'%' ∷ b'p' ∷ b':' ∷ []) (ptr (a % 2 ^ 64) ∷ [])
  cells ← dump_cells flag cols a m
  end ← kprintf (0x0a ∷ []) []
  rest ← dump_rows flag cols left (a + cols) m
  some (header ++ (cells ++ (end ++ rest)))

pub dump_mem : ℕ → ℕ → ℕ → ℕ → Mem → Option (List ℕ)
dump_mem start flag rows cols m = dump_rows flag cols rows start m

unfoldable pub print_int : ℕ → Mem → Option (List ℕ)
print_int p m =
    kprintf (b'%' ∷ b'p' ∷ b':' ∷ b' ' ∷ b'%' ∷ b'd' ∷ 0x0a ∷ []) (ptr p ∷ int (load32 m p) ∷ [])

-- `strlen` counts the terminator, so the terminator is dumped too.
pub print_string : ℕ → ℕ → Mem → Option (List ℕ)
print_string fuel s m = do
  len ← strlen fuel s m
  header ← kprintf (b'l' ∷ b'e' ∷ b'n' ∷ b':' ∷ b' ' ∷ b'%' ∷ b'd' ∷ 0x0a ∷ []) (int len ∷ [])
  dump ← dump_mem s chardump 1 len m
  some (header ++ dump)

-- With the address of the local variable.
pub dump_stack : ℕ → Mem → Option (List ℕ)
dump_stack p m = dump_mem p hexdump 20 20 m
