-- ===== src/Print/Format.antt =====
-- kprintf of kernel/kprint.c and printf of stdlib/myio.c: one loop over the format, with the
-- pending `%` as a flag. They differ in what `%x` prints.
pub mod Render
mod Tests
use aos_kernel.Base.{
  ℕ, ◌+◌, ◌-◌, ◌*◌, ◌%◌, ◌^◌, Bool, true, false, Option, none, some, List, [], ◌∷◌, ◌++◌, ◌==◌, ltb,
  if◌then◌else◌,
}
use aos_kernel.Print.Digits.{◌>>=◌, print_d, print_x}

-- An argument, as its conversion reads it: a string without its terminator, a 32-bit `int`, a
-- 64-bit pointer, a char.
pub data Arg : Type 0 where
  str : List ℕ → Arg
  int : ℕ → Arg
  ptr : ℕ → Arg
  chr : ℕ → Arg

-- An `int` handed to a uint64_t parameter is extended by its sign.
abbrev pub extend32 : ℕ → ℕ
extend32 w = if ltb w (2 ^ 31) then w else w + (2 ^ 64 - 2 ^ 32)

-- kprint_xd takes a uint16_t.
pub kprint_xd : ℕ → Option (List ℕ)
kprint_xd v = print_x (v % 2 ^ 16)

-- kprint_p and print_p.
unfoldable pub print_p : ℕ → Option (List ℕ)
print_p v = print_x v >>= λ out. some (b'0' ∷ b'x' ∷ out)

module _ (hex : ℕ → Option (List ℕ)) where
  -- The `switch` on the conversion, for the next argument. `none` is `va_arg` at another type,
  -- or with no argument left, which C leaves undefined.
  pub convert : ℕ → List Arg → Option (List ℕ × List Arg)
  convert c [] = none
  convert c (str s ∷ args) = if c == b's' then some (s, args) else none
  convert c (int w ∷ args) =
      if c == b'd'
      then (print_d (extend32 w) >>= λ out. some (out, args))
      else if c == b'x'
      then (hex (extend32 w) >>= λ out. some (out, args))
      else none
  convert c (ptr p ∷ args) = if c == b'p' then (print_p p >>= λ out. some (out, args)) else none
  convert c (chr b ∷ args) = if c == b'c' then some (b ∷ [], args) else none

  -- The conversions that the `switch` knows.
  abbrev pub known : ℕ → Bool
  known c =
      if c == b's'
      then true
      else if c == b'd'
      then true
      else if c == b'p'
      then true
      else if c == b'x'
      then true
      else c == b'c'

  -- The loop at the rest of the format. For an unknown conversion the source clears the flag and
  -- looks at the same character again: it is not `%`, so it is printed as it is.
  pub format_loop : Bool → List ℕ → List Arg → Option (List ℕ)
  format_loop flag [] args = some []
  format_loop false (c ∷ f) args =
      let pending = format_loop true f args in
      let plain = format_loop false f args >>= λ out. some (c ∷ out) in
      if c == b'%' then pending else plain
  format_loop true (c ∷ f) args =
      let percent = format_loop false f args >>= λ out. some (b'%' ∷ out) in
      let converted =
        convert c args >>= λ r. format_loop false f r.1 >>= λ out. some (r.0 ++ out) in
      let plain = format_loop false f args >>= λ out. some (c ∷ out) in
      if c == b'%' then percent else if known c then converted else plain

pub kprintf : List ℕ → List Arg → Option (List ℕ)
kprintf f args = format_loop kprint_xd false f args

pub printf : List ℕ → List Arg → Option (List ℕ)
printf f args = format_loop print_x false f args
