-- ===== src/Descriptors/Idt.antt =====
-- idt_set_handler and idt_setup of kernel/idt.c. The addresses of the handlers come from the
-- linker. The two messages of idt_setup, and `lidt`, have no part in the table.
pub mod Gates
mod Tests
use aos_kernel.Base.{
  ℕ, zero, suc, ◌+◌, ◌*◌, ◌/◌, ◌%◌, ◌^◌, Bool, true, false, List, [], ◌∷◌, ◌++◌, ◌==◌,
  if◌then◌else◌,
}
use aos_kernel.Descriptors.Gdt.{kernel_code_selector}

-- idt_entry_t.
pub record IdtEntry : Type 0 where
  pub offset_0 : ℕ
  pub selector : ℕ
  pub ist : ℕ
  pub unused_0 : ℕ
  pub type : ℕ
  pub unused_1 : ℕ
  pub dpl : ℕ
  pub present : ℕ
  pub offset_1 : ℕ
  pub offset_2 : ℕ
  pub unused_2 : ℕ

abbrev pub Idt : Type 0
Idt = ℕ → IdtEntry

abbrev pub idt_type_interrupt : ℕ
idt_type_interrupt = 0xe

abbrev pub idt_type_trap : ℕ
idt_type_trap = 0xf

-- What is set of an entry: `type` has four bits.
abbrev pub gate : ℕ → ℕ → IdtEntry → IdtEntry
gate f type e = record e {
  offset_0 = f % 2 ^ 16;
  offset_1 = f / 2 ^ 16 % 2 ^ 16;
  offset_2 = f / 2 ^ 32 % 2 ^ 32;
  type = type % 2 ^ 4;
  present = 1;
  dpl = 3;
  ist = 0;
  selector = kernel_code_selector;
}

pub idt_set_handler : ℕ → ℕ → ℕ → Idt → Idt
idt_set_handler index f type idt i = if i == index then gate f type (idt i) else idt i

-- The handlers that idt_setup installs.
pub data Handler : Type 0 where
  example_handler_ec : Handler
  divide_zero : Handler
  exception1 : Handler
  exception2 : Handler
  exception3 : Handler
  exception4 : Handler
  exception5 : Handler
  exception6 : Handler
  exception7 : Handler
  exception8 : Handler
  exception9 : Handler
  exception10 : Handler
  exception11 : Handler
  exception12 : Handler
  exception13 : Handler
  segfault : Handler
  exception16 : Handler
  exception17 : Handler
  exception18 : Handler
  exception19 : Handler
  exception20 : Handler
  exception21 : Handler
  exception28 : Handler
  exception29 : Handler
  exception30 : Handler
  irq1_handler : Handler
  syscall_entry : Handler

-- A call of idt_set_handler.
pub record Call : Type 0 where
  pub vector : ℕ
  pub handler : Handler
  pub kind : ℕ

abbrev pub call : ℕ → Handler → ℕ → Call
call v h k = record { vector = v; handler = h; kind = k }

-- The calls of the loop over the vectors from `i` on, `left` of them.
pub example_calls : ℕ → ℕ → List Call
example_calls zero i = []
example_calls (suc left) i =
    call i example_handler_ec idt_type_interrupt ∷ example_calls left (i + 1)

-- The calls after the loop, in their order.
abbrev pub handler_calls : List Call
handler_calls =
    call 0 divide_zero idt_type_interrupt
    ∷ call 1 exception1 idt_type_interrupt
    ∷ call 2 exception2 idt_type_interrupt
    ∷ call 3 exception3 idt_type_trap
    ∷ call 4 exception4 idt_type_trap
    ∷ call 5 exception5 idt_type_interrupt
    ∷ call 6 exception6 idt_type_interrupt
    ∷ call 7 exception7 idt_type_interrupt
    ∷ call 8 exception8 idt_type_interrupt
    ∷ call 9 exception9 idt_type_interrupt
    ∷ call 10 exception10 idt_type_interrupt
    ∷ call 11 exception11 idt_type_interrupt
    ∷ call 12 exception12 idt_type_interrupt
    ∷ call 13 exception13 idt_type_interrupt
    ∷ call 14 segfault idt_type_interrupt
    ∷ call 16 exception16 idt_type_interrupt
    ∷ call 17 exception17 idt_type_interrupt
    ∷ call 18 exception18 idt_type_interrupt
    ∷ call 19 exception19 idt_type_interrupt
    ∷ call 20 exception20 idt_type_interrupt
    ∷ call 21 exception21 idt_type_interrupt
    ∷ call 28 exception28 idt_type_interrupt
    ∷ call 29 exception29 idt_type_interrupt
    ∷ call 30 exception30 idt_type_interrupt
    ∷ call 0x21 irq1_handler idt_type_interrupt
    ∷ call 0x80 syscall_entry idt_type_trap
    ∷ []

abbrev pub setup_calls : List Call
setup_calls = example_calls 21 0 ++ handler_calls

module _ (address : Handler → ℕ) where
  pub set_handlers : List Call → Idt → Idt
  set_handlers [] idt = idt
  set_handlers (c ∷ cs) idt =
      set_handlers cs (idt_set_handler c.vector (address c.handler) c.kind idt)

  pub idt_setup : Idt → Idt
  idt_setup idt = set_handlers setup_calls idt
