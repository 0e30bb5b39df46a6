-- ===== src/Paging.antt =====
-- kernel/paging.c: page table entries, the list of free physical pages, and the four levels of
-- page tables.
pub mod Pte
pub mod Pool
pub mod Tables
