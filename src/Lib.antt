-- ===== src/Lib.antt =====
-- The aos kernel and its small C library, as functions on explicit state, with the theorems that
-- make each part correct. The kernel boots from a stivale2 loader, keeps a list of free pages and
-- the page tables, prints on the VGA text screen, takes characters from the keyboard, and serves
-- the system calls of programs that link the C library.
--
-- Parts and files:
-- - Base: Boolean tests, lists and names that the other files share.
-- - Memory: the memory of C code, a byte at each address (Mem), 64-bit words in it (Memory.Word) and
--   C strings (Memory.Text).
-- - Stdlib: memset and memcpy (Stdlib.Bytes) and malloc over mmap (Stdlib.Malloc) of stdlib/mem.c,
--   and stdlib/mystring.c (Stdlib.Strings). Each loop that looks for a terminator takes fuel: a
--   string needs one round more than it has characters.
-- - Print: the numbers (Print.Digits) and format loops (Print.Format) of kernel/kprint.c and
--   stdlib/myio.c, as the text that they put out. The buffer of a number has 21 bytes,
--   and a 64-bit number at most 20 digits.
-- - Keyboard: kernel/pic.c's buffer between the keyboard interrupt and its readers, and irq1_handler
--   of kernel/idt.c. kgetc gives none while it waits. Keyboard.Interleave has its statements as
--   steps, with the interrupt between them; what a compiler does inside of a statement is left out,
--   but for avail-- (Interleave.Torn).
-- - Pic: pic_init, pic_mask_irq and pic_unmask_irq of kernel/pic.c as the bytes sent.
-- - Paging: the entries (Paging.Pte), the list of free pages in memory (Paging.Pool), and vm_map,
--   vm_unmap, vm_protect and translate (Paging.Tables) of kernel/paging.c. A level of the tables is
--   one round of a loop over four. The loops use the memory functions of Stdlib, and vm_map takes its
--   pages from the pool. The null page is not mapped, so that a write to it is a fault, as a result.
--   Paging.Tables.Lower has unmap_lower_half, as the sequence of pages that it frees.
--   Paging.Tables.Space is about the pages of user programs, in the lower half of the top table: with
--   the pool they are a space of user pages (IsSpace) if the tables and the frames mapped form a
--   tree, each page in one place of it and none free. Large pages do not occur there. Space.Store has
--   the memory of a program, by the page walk.
-- - Terminal: kernel/term.c. kprintf hands its text to term_putchar, one character after the other.
-- - Descriptors: kernel/gdt.c (Descriptors.Gdt), and idt_set_handler and idt_setup of kernel/idt.c
--   (Descriptors.Idt). The addresses of handlers and objects are parameters: the linker chooses them.
-- - Interrupts: the reports of the exception handlers and exception1 (Interrupts.Exceptions), and the
--   system calls read, write and mmap (Interrupts.Syscalls) of kernel/idt.c. syscall_read takes the
--   characters that kgetc gives in order, syscall_write uses the Terminal, and mmap vm_map.
-- - Programs: check_mod of kernel/proc.c over the names of the modules, and the loops of execute_mod
--   over the program headers (Programs.Load), as the list of the parts that they map and copy. A
--   part takes one round of fuel, and has 2048 bytes but for the last one. Programs.Start has the
--   rest of execute_mod: the stack, whose loop takes four rounds of its five of fuel, the test pages
--   and the arguments of usermode_entry.
-- - Boot: find_tag of kernel/boot.c and kernel/paging.c over the tags in memory, with one round of
--   fuel for each tag and one more, and init_list of kernel/paging.c (Boot.MemoryMap), which fills
--   the list of Paging.Pool. Boot.Report has what memmap_print and print_mods print.
-- - Shell: getline of stdlib/myio.c, the loop of shell/shell.c and the exec system call of
--   kernel/idt.c, on the memory that the program and the kernel share. It uses syscall_read, malloc,
--   strlen, strcpy and check_mod.
-- - Debugger: kernel/debug.c: the addresses that it reads (Debugger.Address), what it prints of
--   memory (Debugger.Dump), a round of debug_loop (Debugger.Commands) and lookup_symbol
--   (Debugger.Symbols). A line has at most 70 bytes, so that 70 rounds of fuel are enough for it. The
--   commands that read memory fault where it is not mapped, as a result.
--
-- Numbers are natural numbers; where C wraps, the remainder is written out. Faults, running out of
-- fuel and waiting are results of their own.
--
-- Not modelled: what the loading of segments does to memory and page tables (the calls are), exit and
-- the rest of exec behind the choice of the module, which are left for extensions; _start of
-- kernel/boot.c, which calls the set-up functions of the parts, each modelled on its own state, and
-- tests them; init_tables of kernel/debug.c, whose call is commented out; the programs that only
-- print; the assembly files, port access, the processor's tables and translation cache, and the
-- stivale2 header, which are not C logic of the kernel.
mod Base
pub mod Memory
pub mod Stdlib
pub mod Print
pub mod Keyboard
pub mod Paging
pub mod Terminal
pub mod Descriptors
pub mod Interrupts
pub mod Pic
pub mod Programs
pub mod Boot
pub mod Shell
pub mod Debugger
