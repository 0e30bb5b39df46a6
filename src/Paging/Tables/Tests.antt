-- ===== src/Paging/Tables/Tests.antt =====
-- The theorems of paging at a concrete memory: four free pages and an empty top-level table.
use mathlib.Core.Option
use aos_kernel.Base.{ℕ, ◌+◌, ◌≡◌, refl, true, false, none, some, List, [], ◌∷◌, arith}
use aos_kernel.Memory.Word.{load64, store64}
use aos_kernel.Paging.Pte.{Pte, decode}
use aos_kernel.Paging.Pool.{Pool, pmem_free}
use aos_kernel.Paging.Pool.Chain.{IsPool, pmem_free-IsPool, NotIn}
use aos_kernel.Paging.Tables.{vm_map, vm_unmap, vm_protect, fault}
use aos_kernel.Paging.Tables.Walk.{walk, trail, leaf}
use aos_kernel.Paging.Tables.Update.{
  lookup_page, IsApart, vm_unmap-lookup, vm_protect-lookup, permitted, is_some,
}
use aos_kernel.Paging.Tables.Map.Shape.{AreTables, IsMapped, pages}
use aos_kernel.Paging.Tables.Map.Laws.{vm_map-IsMapped, vm_map_exhausted}

abbrev high_half : ℕ
high_half = 0xffff800000000000

abbrev empty_pool : Pool
empty_pool = record { mem = λ _. 0; hhdm = high_half; free_list = 0 }

abbrev four_free : Pool
four_free = pmem_free 0x5000 (pmem_free 0x4000 (pmem_free 0x3000 (pmem_free 0x2000 empty_pool)))

abbrev four_pages : List ℕ
four_pages =
    (high_half + 0x5000) ∷ (high_half + 0x4000) ∷ (high_half + 0x3000) ∷ (high_half + 0x2000) ∷ []

empty_pool-IsPool : IsPool empty_pool []
empty_pool-IsPool = record {
  chain = refl;
  in_map = tt;
  distinct = tt;
  map_aligned = refl;
  map_in = omega arith;
}

four_free-IsPool : IsPool four_free four_pages
unfolding pmem_free
four_free-IsPool =
    pmem_free-IsPool _ 0x5000 _
      (pmem_free-IsPool _ 0x4000 _
        (pmem_free-IsPool _ 0x3000 _
          (pmem_free-IsPool empty_pool 0x2000 [] empty_pool-IsPool refl (omega arith) tt) refl
          (omega arith) (omega arith))
        refl (omega arith) (omega arith))
      refl (omega arith) (omega arith)

-- The table at 0x1000 is empty.
four_free-none : walk high_half 0x10000 4 0x1000 four_free.mem ≡ none
unfolding pmem_free load64 store64 decode
four_free-none = refl

four_free-tables : AreTables (pages high_half 0x10000 4 0x1000 four_free.mem) four_pages high_half
unfolding pmem_free load64 store64 decode
four_free-tables = record { in_map = omega arith; distinct = omega arith; used = omega arith }

vm_map-IsMapped_example :
    IsMapped true true false 0x10000 4 0x1000 four_free four_pages
      (vm_map 0x1000 0x10000 true true false four_free)
unfolding pmem_free
vm_map-IsMapped_example =
    vm_map-IsMapped true true false 0x1000 0x10000 four_free four_pages four_free-IsPool
      (omega arith) four_free-tables four_free-none (omega arith)

vm_map_exhausted_example : vm_map 0x1000 0x10000 true true true empty_pool ≡ fault
vm_map_exhausted_example =
    vm_map_exhausted true true true 0x1000 0x10000 empty_pool empty_pool-IsPool empty_none
  where
    empty_none : walk high_half 0x10000 4 0x1000 (λ _. 0) ≡ none
    empty_none = unfold load64 decode in refl

-- Tables at 0x1000 to 0x4000, by which the page at 0x10000 is mapped to the frame at 0x5000.
abbrev mapped : Pool
mapped = record {
  mem =
      store64
        (store64
          (store64 (store64 (λ _. 0) (high_half + 0x1000) 0x2007) (high_half + 0x2000) 0x3007)
          (high_half + 0x3000) 0x4007)
        (high_half + 0x4080) 0x5007;
  hhdm = high_half;
  free_list = 0;
}

abbrev page_entry : Pte
page_entry = record {
  present = true;
  writable = true;
  user = true;
  write_through = false;
  cache_disable = false;
  accessed = false;
  dirty = false;
  page_size = false;
  unused = 0;
  address = 5;
  no_execute = false;
}

mapped-entry : lookup_page 0x1000 0x10000 mapped ≡ some page_entry
unfolding load64 store64 decode
mapped-entry = refl

mapped-IsApart : IsApart 0x1000 0x10000 mapped
unfolding load64 store64 decode
mapped-IsApart = omega arith

vm_unmap-lookup_example : lookup_page 0x1000 0x10000 (vm_unmap 0x1000 0x10000 mapped).1 ≡ none
vm_unmap-lookup_example = vm_unmap-lookup 0x1000 0x10000 mapped refl refl mapped-IsApart

-- The page behind shares all tables with it.
apart_behind :
    NotIn (leaf high_half 0x10000 3 0x1000 mapped.mem) (trail high_half 0x11000 4 0x1000 mapped.mem)
unfolding load64 store64 decode
apart_behind = omega arith

vm_protect-lookup_example :
    let (ok, k') = vm_protect 0x1000 0x10000 true false false mapped in
    (ok ≡ is_some (lookup_page 0x1000 0x10000 mapped))
    × (lookup_page 0x1000 0x10000 k'
        ≡ Option.map (permitted true false false) (lookup_page 0x1000 0x10000 mapped))
vm_protect-lookup_example =
    vm_protect-lookup true false false 0x1000 0x10000 mapped refl refl mapped-IsApart
