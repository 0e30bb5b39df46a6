-- ===== src/Pic/Tests.antt =====
-- The interrupt masks at concrete lines: the kernel unmasks the keyboard after pic_init.
