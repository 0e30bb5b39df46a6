-- ===== src/Interrupts/Exceptions/Tests.antt =====
-- The reports of concrete error codes.
use aos_kernel.Base.{◌/◌, ◌%◌, ◌^◌, ◌≡◌, refl, true, false, some, ◌∷◌, ◌++◌, ◌==◌}
use aos_kernel.Descriptors.Idt.{segfault, exception13}
use aos_kernel.Interrupts.Exceptions.{name_ec, cr2, external, when, handler_lines}
use aos_kernel.Interrupts.Exceptions.Reports.{
  told, table_of, table_lines, handler_lines-page_fault, handler_lines-selector,
}

handler_lines-page_fault_example :
    handler_lines segfault 5 0x2000 ≡ some (cr2 0x2000 ∷ name_ec 5 ∷ told true false true false)
handler_lines-page_fault_example = handler_lines-page_fault 5 0x2000

handler_lines-selector_example :
    handler_lines exception13 0x28 0
    ≡ some (
        name_ec 0x28 ∷ when (0x28 % 2 == 1) external
        ++ table_lines (table_of 0x28) (0x28 / 4 % 2 == 1) (0x28 / 8 % 2 ^ 16))
handler_lines-selector_example = handler_lines-selector exception13 0x28 0 refl
