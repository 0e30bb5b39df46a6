-- ===== src/Stdlib.antt =====
-- stdlib/: the user-side library, parts of which the kernel is linked with too.
pub mod Bytes
pub mod Malloc
pub mod Strings
