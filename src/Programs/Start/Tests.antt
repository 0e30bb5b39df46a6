-- ===== src/Programs/Start/Tests.antt =====
-- The start of a program with 24 free pages.
