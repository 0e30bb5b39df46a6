-- ===== src/Stdlib/Malloc/Overlap.antt =====
-- Requests of more than a page: mmap drops the length, so the kernel adds one page only.
use aos_kernel.Base.{ℕ, ◌+◌, ◌^◌, ◌≤◌, ◌<◌, ◌≡◌, ◌≢◌, arith}
use aos_kernel.Stdlib.Malloc.{Arena, page_size, mmap, malloc}

malloc_large :
    (size : ℕ) (a : Arena)
    → a.v_heap ≢ 0
    → page_size < size
    → size ≤ 2 ^ 32
    → a.space_remaining < size
    → a.v_heap + 2 ^ 33 < 2 ^ 64
    → ((malloc size a).0 ≡ a.v_heap) × ((malloc size a).1.v_heap ≡ a.v_heap + page_size)
unfolding malloc mmap
malloc_large size a nz big le more room = ground arith

malloc_next :
    (size : ℕ) (a : Arena)
    → a.v_heap ≢ 0
    → a.space_remaining < size
    → size ≤ 2 ^ 32
    → (malloc size a).0 ≡ a.v_heap
unfolding malloc mmap
malloc_next size a nz more le = ground arith

-- After a request of more than 2048 bytes that needs new memory, the next request that needs
-- new memory gets an address inside the first block.
pub malloc_overlap :
    (size next : ℕ) (a : Arena)
    → 0 < a.v_heap
    → page_size < size
    → size ≤ 2 ^ 32
    → a.space_remaining < size
    → a.v_heap + 2 ^ 33 < 2 ^ 64
    → next ≤ 2 ^ 32
    → (malloc size a).1.space_remaining < next
    → let p = (malloc size a).0 in
      let q = (malloc next (malloc size a).1).0 in (p < q) × (q < p + size)
malloc_overlap size next a pos big le more room le' more' =
    let (first, heap) = malloc_large size a (omega arith) big le more room in
    let second = malloc_next next (malloc size a).1 (omega arith) more' le' in omega arith
