-- ===== src/Interrupts.antt =====
-- What the kernel does on an exception and on a system call: kernel/idt.c.
pub mod Exceptions
pub mod Syscalls
