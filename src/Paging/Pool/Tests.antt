-- ===== src/Paging/Pool/Tests.antt =====
-- The theorems on the pool at concrete pools.
use aos_kernel.Base.{◌≤◌, ◌≡◌, refl, [], ◌∷◌, arith}
use aos_kernel.Paging.Pool.{Pool, pmem_alloc, pmem_free}
use aos_kernel.Paging.Pool.Chain.{IsPool, pmem_free-IsPool, pmem_alloc-IsPool}

abbrev empty_pool : Pool
empty_pool = record { mem = λ _. 7; hhdm = 0xffff800000000000; free_list = 0 }

empty_pool-IsPool : IsPool empty_pool []
empty_pool-IsPool = record {
  chain = refl;
  in_map = tt;
  distinct = tt;
  map_aligned = refl;
  map_in = omega arith;
}

abbrev one_page : Pool
one_page = pmem_free 0x3000 empty_pool

one_page-IsPool : IsPool one_page (0xffff800000003000 ∷ [])
one_page-IsPool = pmem_free-IsPool empty_pool 0x3000 [] empty_pool-IsPool refl (omega arith) tt

pmem_alloc-IsPool_example :
    ((pmem_alloc one_page).0 ≡ 0xffff800000003000)
    × (one_page.hhdm ≤ (pmem_alloc one_page).0)
    × IsPool (pmem_alloc one_page).1 []
pmem_alloc-IsPool_example = pmem_alloc-IsPool one_page 0xffff800000003000 [] one_page-IsPool
