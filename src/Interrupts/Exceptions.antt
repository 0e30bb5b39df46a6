-- ===== src/Interrupts/Exceptions.antt =====
-- The exception handlers of kernel/idt.c: the lines that each prints before it halts the
-- machine, each with the numbers printed in it. exception3 enters the debugger instead.
pub mod Reports
pub mod Single
mod Tests
use aos_kernel.Base.{
  ℕ, ◌+◌, ◌*◌, ◌/◌, ◌%◌, ◌^◌, Bool, true, false, not, ◌||◌, Option, none, some, List, [], ◌∷◌, ◌++◌,
  ◌==◌, if◌then◌else◌,
}
use aos_kernel.Descriptors.Idt.{
  Handler, exception1, exception3, irq1_handler, syscall_entry, example_handler_ec, exception8,
  exception10, exception11, exception12, exception13, segfault, exception17, exception21,
  exception29, exception30,
}

-- `name` is the line with the exception's number and name, and `name_ec` has the error code too.
-- The numbers are the arguments before kprintf reads them: `%d` takes the lowest 32 bits as an int,
-- and an `index` is the bits of an int16_t.
pub data Line : Type 0 where
  name : Line
  name_ec : ℕ → Line
  cr2 : ℕ → Line
  saved_in_pointer : Line
  external : Line
  in_gdt : ℕ → Line
  in_idt : ℕ → Line
  in_ldt : ℕ → Line
  non_present : Line
  protection : Line
  read_access : Line
  write_access : Line
  cpl3 : Line
  reserved_bits : Line
  fetch : Line
  protection_key : Line
  shadow_stack : Line
  sgx : Line

-- `if (test) { kprintf(line); }`
abbrev pub when : Bool → Line → List Line
when true line = line ∷ []
when false line = []

-- The body that exception10 to exception13 share behind their first line. `ec & 0x0000` is 0,
-- the remainder by 1; the others are written in the same way. `index` is an int16_t.
pub selector_lines : ℕ → List Line
selector_lines ec =
    let index = ec / 2 ^ 3 % 2 ^ 16 in
    let ec' = ec / 2 in
    when (not (ec % 2 == 0)) external
    ++ when (not (ec' % 1 == 0)) (in_gdt index)
    ++ when (not (ec' % 2 == 0) || not (ec' % 4 == 0)) (in_idt index)
    ++ when (not (ec' / 2 % 2 == 0)) (in_ldt index)

-- The lines of segfault behind its first two. `ec & 0x0005` keeps bits 0 and 2.
pub fault_lines : ℕ → List Line
fault_lines ec =
    (if ec % 2 == 0 then non_present ∷ [] else protection ∷ [])
    ++ (if ec / 2 % 2 * 2 == 0 then read_access ∷ [] else write_access ∷ [])
    ++ when (ec % 2 ^ 2 == 1) cpl3
    ++ when (ec / 2 ^ 2 % 2 * 2 ^ 2 == 1) reserved_bits
    ++ when (ec % 2 + ec / 2 ^ 2 % 2 * 2 ^ 2 == 1) fetch
    ++ when (ec / 2 % 2 ^ 2 * 2 == 1) protection_key
    ++ when (ec % 2 ^ 3 == 1) shadow_stack
    ++ when (ec % 2 ^ 4 == 1) sgx

-- The lines of a handler that halts, with the error code and the register cr2; `none` for the
-- other handlers.
pub handler_lines : Handler → ℕ → ℕ → Option (List Line)
handler_lines example_handler_ec ec fault = some (name_ec ec ∷ [])
handler_lines exception8 ec fault = some (name_ec ec ∷ [])
handler_lines exception10 ec fault = some (name_ec ec ∷ selector_lines ec)
handler_lines exception11 ec fault = some (name_ec ec ∷ selector_lines ec)
handler_lines exception12 ec fault = some (name_ec ec ∷ selector_lines ec)
handler_lines exception13 ec fault = some (name_ec ec ∷ selector_lines ec)
handler_lines segfault ec fault = some (cr2 fault ∷ name_ec ec ∷ fault_lines ec)
handler_lines exception17 ec fault = some (name_ec ec ∷ saved_in_pointer ∷ [])
handler_lines exception21 ec fault = some (name_ec ec ∷ [])
handler_lines exception29 ec fault = some (name_ec ec ∷ [])
handler_lines exception30 ec fault = some (name_ec ec ∷ [])
handler_lines exception1 ec fault = none
handler_lines exception3 ec fault = none
handler_lines irq1_handler ec fault = none
handler_lines syscall_entry ec fault = none
handler_lines _ ec fault = some (name ∷ [])
