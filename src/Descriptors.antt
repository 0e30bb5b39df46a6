-- ===== src/Descriptors.antt =====
-- The descriptor tables of the processor: kernel/gdt.c, and idt_set_handler and idt_setup of
-- kernel/idt.c.
pub mod Gdt
pub mod Idt
