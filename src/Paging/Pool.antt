-- ===== src/Paging/Pool.antt =====
-- The free list of kernel/paging.c: init_list, pmem_alloc, pmem_free.
--
-- Memory is addressed as the kernel sees it through the direct map, which the boot loader puts
-- at `hhdm`: physical address `p` is at `ptov p`. While init_list runs, the loader's identity
-- map is there too, so an access at the physical address itself reaches the same byte; later
-- every access of this file goes through the direct map.
pub mod Chain
pub mod Init
mod Tests
use aos_kernel.Base.{
  ℕ, zero, suc, ◌+◌, ◌-◌, ◌*◌, ◌/◌, ◌%◌, ◌^◌, Option, none, some, List, [], ◌∷◌, ltb, ◌==◌,
  if◌then◌else◌,
}
use aos_kernel.Memory.{Mem}
use aos_kernel.Memory.Word.{load64, store64}

-- The globals `hhdm` and `free_list`, and the memory.
pub record Pool : Type 0 where
  pub mem : Mem
  pub hhdm : ℕ
  pub free_list : ℕ

-- Physical to virtual.
abbrev pub ptov : Pool → ℕ → ℕ
ptov k p = (p + k.hhdm) % 2 ^ 64

-- The result is the head of the list as it is, an address in the direct map; 0 when none is left.
pub pmem_alloc : Pool → ℕ × Pool
pmem_alloc k =
    if k.free_list == 0
    then (0, k)
    else (k.free_list, record k { free_list = load64 k.mem k.free_list })

-- `p` is a physical address.
unfoldable pub pmem_free : ℕ → Pool → Pool
pmem_free p k = record k { mem = store64 k.mem (ptov k p) k.free_list; free_list = ptov k p }

-- An entry of the loader's memory map.
pub record Region : Type 0 where
  pub base : ℕ
  pub length : ℕ
  pub kind : ℕ

-- The pages of one region. `none` is the overflow of the `int` product `4096 * j`, which C
-- leaves undefined. `left` is `n_pages - j`.
unfoldable pub add_pages : ℕ → ℕ → ℕ → Pool → Option Pool
add_pages zero base j k = some k
add_pages (suc left) base j k =
    let curr = (base + 4096 * j) % 2 ^ 64 in
    let rest =
      add_pages left base (j + 1)
        (record k { mem = store64 k.mem (ptov k curr) k.free_list; free_list = ptov k curr }) in
    if ltb (4096 * j) (2 ^ 31) then rest else none

-- `int n_pages = length / 4096`, as the number of rounds: none for a negative number.
abbrev pub page_count : ℕ → ℕ
page_count length = let n = length / 4096 % 2 ^ 32 in if ltb n (2 ^ 31) then n else 0

-- The usable regions are those of type 1.
pub add_regions : List Region → Pool → Option Pool
add_regions [] k = some k
add_regions (r ∷ rs) k =
    if r.kind == 1
    then elim (add_pages (page_count r.length) r.base 0 k) [
      | none ↦ none
      | some k' ↦ add_regions rs k'
    ]
    else add_regions rs k
