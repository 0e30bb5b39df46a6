-- ===== src/Boot/Tests.antt =====
-- Two tags, and a memory map with one usable region of two pages.
use aos_kernel.Base.{◌≡◌, refl, some, inl, List, [], ◌∷◌, arith}
use aos_kernel.Memory.{Mem}
use aos_kernel.Memory.Word.{load64, store64}
use aos_kernel.Paging.Pool.{Pool, Region}
use aos_kernel.Boot.{memmap_id, hhdm_id, find_tag, init_list}
use aos_kernel.Boot.Tags.{Tag, IsTags, find_tag-first}
use aos_kernel.Boot.MemoryMap.{IsBoot, IsFilled, init_list-IsFilled}

abbrev memory : Mem
unfolding store64
memory =
    store64
      (store64
        (store64
          (store64
            (store64
              (store64
                (store64
                  (store64
                    (store64 (store64 (store64 (store64 (λ _. 0) 128 200) 200 hhdm_id) 208 300) 216
                      0x100000)
                    300 memmap_id)
                  316 2)
                324 0x3000)
              332 0x2005)
            340 1)
          348 0x8000)
        356 4096)
      364 5

abbrev tags : List Tag
tags = (200, hhdm_id) ∷ (300, memmap_id) ∷ []

abbrev regions : List Region
regions =
    record { base = 0x3000; length = 0x2005; kind = 1 }
    ∷ record { base = 0x8000; length = 4096; kind = 5 }
    ∷ []

memory-IsTags : IsTags memory (load64 memory 128) tags
unfolding load64 memory
memory-IsTags = (refl, (λ e. omega arith), refl, (refl, (λ e. omega arith), refl, refl))

find_tag-first_example : find_tag 3 0 memmap_id memory ≡ some 300
find_tag-first_example = find_tag-first 3 0 memmap_id memory tags memory-IsTags (omega arith)

-- No tag has this identifier.
find_tag_none : find_tag 3 0 5 memory ≡ some 0
find_tag_none = find_tag-first 3 0 5 memory tags memory-IsTags (omega arith)

abbrev pool : Pool
pool = record { mem = memory; hhdm = 0; free_list = 0 }

memory-IsBoot : IsBoot 3 0 0x100000 memory regions
unfolding load64 memory
memory-IsBoot = record {
  tags = tags;
  linked = memory-IsTags;
  enough = omega arith;
  map_tag = λ e. omega arith;
  hhdm_tag = λ e. omega arith;
  address = refl;
  entries = refl;
  map = (refl, (refl, tt));
  aligned = refl;
  nonzero = omega arith;
  fit = (
    (λ u. record {
      aligned = refl;
      small = omega arith;
      inside = omega arith;
      fresh = tt;
      away = inl (omega arith);
    }),
    ((λ u. ground arith), tt),
  );
}

init_list-IsFilled_example : IsFilled 0x100000 (0x104000 ∷ 0x103000 ∷ []) (init_list 3 0 pool)
init_list-IsFilled_example = init_list-IsFilled 3 0 0x100000 pool regions refl memory-IsBoot
