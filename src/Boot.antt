-- ===== src/Boot.antt =====
-- The boot loader's tags in memory: find_tag of kernel/boot.c, which kernel/paging.c repeats, and
-- init_list of kernel/paging.c, which fills the free list from the memory map. Nothing here wraps
-- round the address space.
pub mod Tags
pub mod MemoryMap
pub mod Report
mod Tests
use aos_kernel.Base.{
  ℕ, zero, suc, ◌+◌, ◌*◌, ◌-◌, ◌%◌, ◌^◌, Option, none, some, ltb, ◌==◌, if◌then◌else◌,
}
use aos_kernel.Memory.{Mem}
use aos_kernel.Memory.Word.{load32, load64}
use aos_kernel.Paging.Pool.{Pool, Region, page_count, add_pages}

-- STIVALE2_STRUCT_TAG_MEMMAP_ID
abbrev pub memmap_id : ℕ
memmap_id = 0x2187f79e8612de07

-- STIVALE2_STRUCT_TAG_HHDM_ID
abbrev pub hhdm_id : ℕ
hhdm_id = 0xb0ed257db18cb58f

-- The loop from the tag at `current` on, with fuel; a tag is its identifier and the next one's
-- address. The result is the address, 0 for NULL.
pub find_tag_loop : ℕ → ℕ → ℕ → Mem → Option ℕ
find_tag_loop zero current id m = none
find_tag_loop (suc fuel) current id m =
    let rest = find_tag_loop fuel (load64 m (current + 8)) id m in
    if current == 0 then some 0 else if load64 m current == id then some current else rest

-- `tags` stands behind the 128 bytes of the loader's name and version.
pub find_tag : ℕ → ℕ → ℕ → Mem → Option ℕ
find_tag fuel hdr id m = find_tag_loop fuel (load64 m (hdr + 128)) id m

-- `tag->memmap[i]`, for the entry at its address.
abbrev pub entry : Mem → ℕ → Region
entry m a = record { base = load64 m a; length = load64 m (a + 8); kind = load32 m (a + 16) }

-- How init_list ends: it halts without one of the tags, its `int` product overflows or the tags
-- have no end, or it has filled the list.
pub data Filled : Type 0 where
  halted : Filled
  undefined_ : Filled
  filled : Pool → Filled

-- The loop over the memory map, with `left` entries to go from the address `a` on. The pages'
-- links are written to the same memory as the map is read from.
pub init_entries : ℕ → ℕ → Pool → Filled
init_entries zero a k = filled k
init_entries (suc left) a k =
    let r = entry k.mem a in
    if r.kind == 1
    then elim (add_pages (page_count r.length) r.base 0 k) [
      | none ↦ undefined_
      | some k' ↦ init_entries left (a + 24) k'
    ]
    else init_entries left (a + 24) k

-- `int i` counts as far as `entries`, a uint64_t, which is below 2 ^ 31 here.
pub init_list : ℕ → ℕ → Pool → Filled
init_list fuel hdr k = elim (find_tag fuel hdr memmap_id k.mem) [
  | none ↦ undefined_
  | some tag ↦ elim (find_tag fuel hdr hhdm_id k.mem) [
    | none ↦ undefined_
    | some hhdm_tag ↦
        if tag == 0
        then halted
        else if hhdm_tag == 0
        then halted
        else init_entries (load64 k.mem (tag + 16)) (tag + 24)
            (record k { hhdm = load64 k.mem (hhdm_tag + 16) })
  ]
]
