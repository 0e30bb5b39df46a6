-- ===== src/Debugger/Commands/Tests.antt =====
-- Lines at the debugger's prompt, and its theorems on them.
use aos_kernel.Base.{
  ℕ, ◌-◌, ◌≡◌, refl, inl, inr, true, List, [], ◌∷◌, ◌++◌, arith, leb, if◌then◌else◌, get_or,
}
use aos_kernel.Memory.{Mem}
use aos_kernel.Stdlib.Strings.Pieces.{StringsAt}
use aos_kernel.Debugger.Address.{translate_hex_char}
use aos_kernel.Debugger.Commands.{
  Literals, all_mapped, overrun, text, again, perform, debug_round, leave,
}
use aos_kernel.Debugger.Commands.Line.{unwind}
use aos_kernel.Debugger.Commands.Dispatch.{continue_text, IsLoaded}
use aos_kernel.Debugger.Commands.Typed.{Agree, IsApart, debug_round-perform, debug_round-overrun}
use aos_kernel.Debugger.Commands.Print.{print_line, IsPrinted, debug_round-print}

-- The literals, with their terminators, from 100 on.
abbrev bytes : List ℕ
bytes =
    b'p' ∷ b'r' ∷ b'i' ∷ b'n' ∷ b't' ∷ 0 ∷ b's' ∷ b't' ∷ b'a' ∷ b'c' ∷ b'k' ∷ 0 ∷ b's' ∷ b't' ∷ b'r'
    ∷ b'i' ∷ b'n' ∷ b'g' ∷ 0 ∷ b'c' ∷ b'o' ∷ b'n' ∷ b't' ∷ b'i' ∷ b'n' ∷ b'u' ∷ b'e' ∷ []

abbrev memory : Mem
memory x = if leb 100 x then get_or bytes (x - 100) 0 else 7

abbrev literals : Literals
literals = record { print = 100; stack = 106; string = 112; continue_ = 119 }

memory-IsLoaded : IsLoaded memory literals
memory-IsLoaded = record {
  print_at = omega arith;
  stack_at = omega arith;
  string_at = omega arith;
  continue_at = omega arith;
}

literals-IsApart : IsApart 200 literals
literals-IsApart = record {
  print_apart = inl (omega arith);
  stack_apart = inl (omega arith);
  string_apart = inl (omega arith);
  continue_apart = inl (omega arith);
}

-- `hp`, a backspace, `i`.
abbrev keys : List ℕ
keys = b'h' ∷ b'p' ∷ 0x08 ∷ b'i' ∷ []

abbrev continued : List ℕ
continued = unwind continue_text []

debug_round-perform_example :
    (out : List ℕ) × (after : Mem) × (debug_round 99 literals
        (λ _. 9)
        (λ _. true)
        500
        200
        memory
        (continue_text ++ (0x0a ∷ []))
      ≡ perform 99 literals (λ _. 9) (λ _. true) 500 leave after [])
    × StringsAt after out (continue_text ∷ [])
    × Agree 200 after memory
debug_round-perform_example =
    debug_round-perform 99 literals (λ _. 9) (λ _. true) 500 200 memory continue_text continued []
      (omega arith) (omega arith) refl (omega arith) (omega arith) literals-IsApart memory-IsLoaded
      (omega arith)

-- A backspace at the start of the line.
debug_round-overrun_example :
    debug_round 99 literals (λ _. 9) (λ _. true) 500 200 memory (0x08 ∷ 0x0a ∷ []) ≡ overrun
debug_round-overrun_example =
    debug_round-overrun 99 literals (λ _. 9) (λ _. true) 500 200 memory (0x08 ∷ []) [] (omega arith)
      (omega arith) (inl refl) (omega arith)

-- Six words.
six_words :
    debug_round 99 literals
      (λ _. 9)
      (λ _. true)
      500
      200
      memory
      (b'a' ∷ b' ' ∷ b'a' ∷ b' ' ∷ b'a' ∷ b' ' ∷ b'a' ∷ b' ' ∷ b'a' ∷ b' ' ∷ b'a' ∷ 0x0a ∷ [])
    ≡ overrun
six_words =
    debug_round-overrun 99 literals (λ _. 9) (λ _. true) 500 200 memory
      (b'a' ∷ b' ' ∷ b'a' ∷ b' ' ∷ b'a' ∷ b' ' ∷ b'a' ∷ b' ' ∷ b'a' ∷ b' ' ∷ b'a' ∷ []) []
      (omega arith) (omega arith) (inr (_, refl, omega arith)) (omega arith)

debug_round-print_example :
    (after : Mem) × (out : List ℕ) × (debug_round 99 literals
        (λ _. 9)
        (λ _. true)
        500
        200
        memory
        (print_line (b'6' ∷ b'4' ∷ []) ++ (0x0a ∷ []))
      ≡ again (text out) after [])
    × IsPrinted 100 1852404336 out
    × Agree 200 after memory
unfolding translate_hex_char all_mapped
debug_round-print_example =
    debug_round-print 99 literals (λ _. 9) (λ _. true) 500 200 memory (b'6' ∷ b'4' ∷ []) []
      (refl, (refl, tt)) (omega arith) (inl (omega arith)) refl (omega arith) (omega arith)
      literals-IsApart memory-IsLoaded (omega arith)
