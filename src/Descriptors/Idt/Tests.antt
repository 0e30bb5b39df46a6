-- ===== src/Descriptors/Idt/Tests.antt =====
-- The gates at a concrete layout of the kernel.
use aos_kernel.Base.{ℕ, ◌≡◌, refl, arith}
use aos_kernel.Descriptors.Idt.{
  Idt, Handler, segfault, call, idt_setup, set_handlers, idt_set_handler, example_calls,
  idt_type_interrupt,
}
use aos_kernel.Descriptors.Idt.Gates.{target, takes_error_code, pushes_error_code, idt_setup-gate}

abbrev blank : Idt
blank i = record {
  offset_0 = 0;
  selector = 0;
  ist = 0;
  unused_0 = 0;
  type = 0;
  unused_1 = 0;
  dpl = 0;
  present = 0;
  offset_1 = 0;
  offset_2 = 0;
  unused_2 = 0;
}

abbrev address : Handler → ℕ
address segfault = 0xffffffff80003210
address _ = 0xffffffff80001000

-- Every gate can be raised from user mode.
open_gate : (idt_setup address blank 14).dpl ≡ 3
unfolding idt_setup set_handlers idt_set_handler example_calls
open_gate = refl

idt_setup-gate_example :
    (target (idt_setup address blank 14) ≡ 0xffffffff80003210)
    × ((idt_setup address blank 14).present ≡ 1)
    × (takes_error_code segfault ≡ pushes_error_code 14)
unfolding example_calls
idt_setup-gate_example =
    idt_setup-gate address blank 14 (call 14 segfault idt_type_interrupt) (omega arith)
      (omega arith) refl refl
