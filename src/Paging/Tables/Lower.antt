-- ===== src/Paging/Tables/Lower.antt =====
-- unmap_lower_half of kernel/paging.c: it clears the lower half of the top table and gives the
-- pages of the tables below back to the pool. A table does not wrap round the address space.
-- reset_v_heap and the reload of the control register are left out.
pub mod Freed
pub mod Root
pub mod Reclaimed
mod Tests
use aos_kernel.Base.{ℕ, zero, suc, ◌+◌, false, not, ◌&&◌, if◌then◌else◌}
use aos_kernel.Paging.Pte.{Pte}
use aos_kernel.Paging.Pool.{Pool, ptov, pmem_free}
use aos_kernel.Paging.Tables.{load_pte, store_pte, next_table}

-- The loop over a level 2 table, from the entry at `a` on with `left` entries to go.
pub free_l1_tables : ℕ → ℕ → Pool → Pool
free_l1_tables zero a k = k
free_l1_tables (suc left) a k =
    let e = load_pte k.mem a in
    free_l1_tables left (a + 8)
      (if e.present && not e.page_size then pmem_free (next_table e) k else k)

-- What is done for the table of an entry of level 3.
pub free_l2_table : ℕ → Pool → Pool
free_l2_table a k =
    let k' = free_l1_tables 512 (ptov k (next_table (load_pte k.mem a))) k in
    pmem_free (next_table (load_pte k'.mem a)) k'

-- The loop over a level 3 table.
pub free_l2_tables : ℕ → ℕ → Pool → Pool
free_l2_tables zero a k = k
free_l2_tables (suc left) a k =
    let e = load_pte k.mem a in
    free_l2_tables left (a + 8) (if e.present && not e.page_size then free_l2_table a k else k)

-- `l4_table[l4_index].present = false`
abbrev pub clear_entry : ℕ → Pool → Pool
clear_entry a k = record k {
  mem = store_pte k.mem a (record (load_pte k.mem a) { present = false });
}

-- What is done for a present entry of level 4.
pub unmap_entry : ℕ → Pool → Pool
unmap_entry a k =
    let k1 = clear_entry a k in
    let k2 = free_l2_tables 512 (ptov k1 (next_table (load_pte k1.mem a))) k1 in
    pmem_free (next_table (load_pte k2.mem a)) k2

-- The loop over the level 4 table.
pub unmap_entries : ℕ → ℕ → Pool → Pool
unmap_entries zero a k = k
unmap_entries (suc left) a k =
    unmap_entries left (a + 8) (if (load_pte k.mem a).present then unmap_entry a k else k)

pub unmap_lower_half : ℕ → Pool → Pool
unmap_lower_half root k = unmap_entries 256 (ptov k root) k
