-- ===== src/Debugger.antt =====
-- kernel/debug.c: the debugger that a breakpoint enters.
pub mod Address
pub mod Dump
pub mod Commands
pub mod Symbols
