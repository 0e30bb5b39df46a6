-- ===== src/Print.antt =====
-- Printing, which kernel/kprint.c and stdlib/myio.c write down alike: what is printed is the
-- list of the characters that kprint_c, or print_c, is called with.
pub mod Digits
pub mod Format
