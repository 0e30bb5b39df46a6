-- ===== src/Paging/Tables/Lower/Tests.antt =====
-- A top table with one entry, whose table is empty.
use aos_kernel.Base.{◌+◌, ℕ, ◌≤◌, ◌<◌, ◌≡◌, ◌⊎◌, refl, none, inr, subst, sym, [], ◌∷◌, arith}
use aos_kernel.Memory.Word.{load64, store64}
use aos_kernel.Paging.Pte.{decode, encode}
use aos_kernel.Paging.Pool.{Pool, pmem_free}
use aos_kernel.Paging.Tables.{load_pte, index, entry_at}
use aos_kernel.Paging.Tables.Update.{lookup_page}
use aos_kernel.Paging.Tables.Lower.{
  free_l1_tables, free_l2_table, free_l2_tables, unmap_entry, unmap_lower_half,
}
use aos_kernel.Paging.Tables.Lower.Freed.{entry_frees, lower_frees}
use aos_kernel.Paging.Tables.Lower.Root.{AllClear, unmap_lower_half-lookup}
use aos_kernel.Paging.Tables.Lower.Reclaimed.{pushed, CanFree, unmap_lower_half-IsPool}
use aos_kernel.Paging.Pool.Chain.{IsPool}
use aos_kernel.Paging.Tables.Space.{user_end}
use aos_kernel.Paging.Tables.Space.Laws.{IsSpace, page_entry}
use aos_kernel.Paging.Tables.Space.Empty.{unmap_lower_half-IsSpace}
use aos_kernel.Paging.Tables.Space.Examples.{high_half}

-- The top table is at 0x1000; its first entry is present, with the table at 0x2000.
abbrev pool : Pool
unfolding store64
pool = record { mem = store64 (λ _. 0) 0x101000 0x2003; hhdm = 0x100000; free_list = 0 }

pool_frees : lower_frees 256 0x101000 pool ≡ 0x2000 ∷ []
unfolding pool load64 store64 decode encode pmem_free free_l1_tables free_l2_table free_l2_tables
    unmap_entry entry_frees
pool_frees = refl

unmap_lower_half-lookup_example :
    let k' = unmap_lower_half 0x1000 pool in
    ((index 0x5000 3 < 256) × (lookup_page 0x1000 0x5000 k' ≡ none))
    ⊎ ((256 ≤ index 0x5000 3)
        × (load_pte k'.mem (entry_at k'.hhdm 0x5000 0x1000 3)
            ≡ load_pte pool.mem (entry_at pool.hhdm 0x5000 0x1000 3)))
unfolding pool
unmap_lower_half-lookup_example =
    unmap_lower_half-lookup 0x1000 0x5000 pool refl
      (subst (λ ps. AllClear 0x101000 0x100000 ps) (sym pool_frees) (inr (omega arith), tt))

pool-IsPool : IsPool pool []
unfolding pool
pool-IsPool = record {
  chain = refl;
  in_map = tt;
  distinct = tt;
  map_aligned = refl;
  map_in = omega arith;
}

unmap_lower_half-IsPool_example :
    IsPool (unmap_lower_half 0x1000 pool) (pushed 0x100000 (lower_frees 256 0x101000 pool) [])
unfolding pool
unmap_lower_half-IsPool_example =
    unmap_lower_half-IsPool 0x1000 pool [] refl tt pool-IsPool
      (subst (λ ps. AllClear 0x101000 0x100000 ps) (sym pool_frees) (inr (omega arith), tt))
      (subst (λ ps. CanFree 0x100000 ps []) (sym pool_frees) (refl, omega arith, tt, tt))

-- The first entry of the top table at 0x1000 leads to an empty table at 0x2000.
abbrev used : Pool
unfolding store64
used = record {
  mem = store64 (λ _. 0) (high_half + 0x1000) 0x2003;
  hhdm = high_half;
  free_list = 0;
}

used_frees : lower_frees 256 (high_half + 0x1000) used ≡ 0x2000 ∷ []
unfolding used load64 store64 decode encode pmem_free free_l1_tables free_l2_table free_l2_tables
    unmap_entry entry_frees
used_frees = refl

used-IsPool : IsPool used []
unfolding used
used-IsPool = record {
  chain = refl;
  in_map = tt;
  distinct = tt;
  map_aligned = refl;
  map_in = omega arith;
}

unmap_lower_half-IsSpace_example :
    let freed = pushed high_half (lower_frees 256 (high_half + 0x1000) used) [] in
    let k' = unmap_lower_half 0x1000 used in
    IsSpace 0x1000 k' freed × ((b : ℕ) → b < user_end → page_entry 0x1000 b k' ≡ none)
unfolding used
unmap_lower_half-IsSpace_example =
    unmap_lower_half-IsSpace 0x1000 used [] (omega arith) (omega arith) refl tt used-IsPool
      (subst (λ ps. AllClear (high_half + 0x1000) high_half ps) (sym used_frees)
        (inr (omega arith), tt))
      (subst (λ ps. CanFree high_half ps []) (sym used_frees) (refl, omega arith, tt, tt))
