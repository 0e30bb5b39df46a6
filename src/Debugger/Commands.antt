-- ===== src/Debugger/Commands.antt =====
-- debug_loop of kernel/debug.c: one round of its `for (;;)`, which reads a line from the keyboard
-- into `buf`, splits it, and runs the command. The echo of the line is left out.
pub mod Line
pub mod Dispatch
pub mod Typed
pub mod Print
mod Tests
use aos_kernel.Base.{
  ℕ, zero, suc, ◌+◌, ◌-◌, ◌%◌, ◌^◌, Bool, true, Option, none, some, List, [], ◌∷◌, ◌&&◌, leb, ltb,
  ◌==◌, if◌then◌else◌, get_or, length,
}
use aos_kernel.Memory.{Mem, store}
use aos_kernel.Stdlib.Strings.{my_strcmp, strlen, words}
use aos_kernel.Print.Digits.{◌>>=◌}
use aos_kernel.Debugger.Address.{conv_addr, get_addr}
use aos_kernel.Debugger.Dump.{print_int, print_string, dump_stack}

abbrev pub buf_len : ℕ
buf_len = 70

-- `char buf[70] = { 0 };`
abbrev pub clear_buf : ℕ → Mem → Mem
clear_buf buf m x = if leb buf x && ltb x (buf + buf_len) then 0 else m x

-- How reading a line ends: it waits for a character, it stores outside of `buf`, or the line is
-- there, with the characters not read.
pub data Reading : Type 0 where
  waits : Reading
  overruns : Reading
  line : Mem → List ℕ → Reading

-- The loop on the characters that kgetc gives, with `i` characters in the buffer. A backspace at
-- its start makes the index -1, where the next store goes.
pub read_line : ℕ → ℕ → Mem → List ℕ → Reading
read_line buf i m [] = waits
read_line buf i m (curr ∷ input) =
    let back = curr == 0x08 in
    let rest =
      read_line buf (if back then i - 1 else i + 1) (if back then m else store m (buf + i) curr)
        input in
    if curr == 0x0a
    then if ltb i buf_len then line (store m (buf + i) 0) input else overruns
    else if back
    then if i == 0 then overruns else rest
    else if ltb i buf_len
    then rest
    else overruns

-- What the chain of `if`s chooses; the pointer is to the word with the address.
pub data Action : Type 0 where
  valid_commands : Action
  ask_address : Action
  show_stack : Action
  address_needed : Action
  show_string : ℕ → Action
  show_int : ℕ → Action
  valid_arguments : Action
  leave : Action

-- Where the string literals of the comparisons stand.
pub record Literals : Type 0 where
  pub print : ℕ
  pub stack : ℕ
  pub string : ℕ
  pub continue_ : ℕ

-- A line of fixed text, named as its action, or what the functions of Dump print.
pub data Shown : Type 0 where
  message : Action → Shown
  text : List ℕ → Shown

-- How a round ends. `stuck` is a loop of the string functions that finds no end with its fuel, or
-- a `%` without its argument. `faulted` is a page fault, whose handler halts.
pub data Round : Type 0 where
  waiting : Round
  overrun : Round
  stuck : Round
  faulted : Round
  again : Shown → Mem → List ℕ → Round
  continues : Mem → List ℕ → Round

-- The `n` bytes from `a` on are mapped.
unfoldable pub all_mapped : (ℕ → Bool) → ℕ → ℕ → Bool
all_mapped mapped zero a = true
all_mapped mapped (suc n) a = mapped (a % 2 ^ 64) && all_mapped mapped n (a + 1)

module _ (fuel : ℕ) (literals : Literals) where
  -- `my_strcmp(literal, word) == 0`
  abbrev pub test : ℕ → ℕ → Mem → Option Action → Option Action → Option Action
  test literal word m equal other =
      my_strcmp fuel literal word m >>= λ r. if r == 0 then equal else other

  pub print_command : ℕ → ℕ → Mem → Option Action
  print_command word1 word2 m =
      if word1 == 0
      then some ask_address
      else test literals.stack word1 m (some show_stack) (
          test literals.string word1 m
            (some (if word2 == 0 then address_needed else show_string word2))
            (some (if m word1 == b'0' then show_int word1 else valid_arguments)))

  -- The choice for `line_words`, which is NULL behind the words stored.
  pub command : List ℕ → Mem → Option Action
  command line_words m =
      let word0 = get_or line_words 0 0 in
      if word0 == 0
      then some valid_commands
      else test literals.print word0 m
          (print_command (get_or line_words 1 0) (get_or line_words 2 0) m)
          (test literals.continue_ word0 m (some leave) (some valid_commands))

  -- `junk` is as for translate_hex_char, `mapped` says which addresses the kernel can read, and
  -- `dummy` is the address of the local variable of dump_stack.
  module _ (junk : ℕ → ℕ) (mapped : ℕ → Bool) (dummy : ℕ) where
    abbrev pub show : Option (List ℕ) → Mem → List ℕ → Round
    show none m input = stuck
    show (some out) m input = again (text out) m input

    -- The functions of Dump, with the bytes that they read.
    abbrev run_int : ℕ → Mem → List ℕ → Round
    run_int ptr m input =
        if all_mapped mapped 4 ptr then show (print_int ptr m) m input else faulted

    abbrev pub int_at : Option ℕ → Mem → List ℕ → Round
    int_at none m input = stuck
    int_at (some ptr) m input = run_int ptr m input

    abbrev string_at : Option ℕ → Mem → List ℕ → Round
    string_at none m input = stuck
    string_at (some ptr) m input = elim (strlen fuel ptr m) [
      | none ↦ stuck
      | some len ↦
          if all_mapped mapped len ptr then show (print_string fuel ptr m) m input else faulted
    ]

    pub perform : Action → Mem → List ℕ → Round
    perform valid_commands m input = again (message valid_commands) m input
    perform ask_address m input = elim (get_addr input) [
      | none ↦ waiting
      | some (ptr, rest) ↦ run_int ptr m rest
    ]
    perform show_stack m input =
        if all_mapped mapped 400 dummy then show (dump_stack dummy m) m input else faulted
    perform address_needed m input = again (message address_needed) m input
    perform (show_string word) m input = string_at (conv_addr junk fuel word m) m input
    perform (show_int word) m input = int_at (conv_addr junk fuel word m) m input
    perform valid_arguments m input = again (message valid_arguments) m input
    perform leave m input = continues m input

    -- The words are stored in an array of five.
    pub run_line : ℕ → Mem → List ℕ → Round
    run_line buf m input = elim (words fuel buf m) [
      | none ↦ stuck
      | some (line_words, m') ↦
          if leb (length line_words) 5
          then elim (command line_words m') [ none ↦ stuck | some action ↦ perform action m' input ]
          else overrun
    ]

    pub debug_round : ℕ → Mem → List ℕ → Round
    debug_round buf m input = elim (read_line buf 0 (clear_buf buf m) input) [
      | waits ↦ waiting
      | overruns ↦ overrun
      | line m' rest ↦ run_line buf m' rest
    ]
