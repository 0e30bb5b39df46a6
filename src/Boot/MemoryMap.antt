-- ===== src/Boot/MemoryMap.antt =====
-- The free list that init_list leaves.
use aos_kernel.Base.{
  ℕ, ◌+◌, ◌*◌, ◌%◌, ◌^◌, ◌≤◌, ◌<◌, ◌≡◌, ◌≢◌, refl, sym, ap, subst, ◌∙◌, ◌⊎◌, inl, inr, Bool-cases,
  true, false, some, List, [], ◌∷◌, arith, length, ◌==◌, if◌then◌else◌,
}
use aos_kernel.Memory.{Mem}
use aos_kernel.Memory.Word.{load32, load64, load64_ext}
use aos_kernel.Paging.Pool.{Pool, Region, page_count, add_pages}
use aos_kernel.Paging.Pool.Chain.{IsPool}
use aos_kernel.Paging.Pool.Init.{Kept, add_pages-Kept, region_pages, Unlisted, add_pages-IsPool}
use aos_kernel.Boot.{
  memmap_id, hhdm_id, entry, Filled, filled, halted, undefined_, init_entries, init_list,
}
use aos_kernel.Boot.Tags.{Tag, IsTags, first, find_tag-first}

-- The map in memory.
abbrev pub IsMap : Mem → ℕ → List Region → Type 0
IsMap m a [] = Unit {0}
IsMap m a (r ∷ rs) = (entry m a ≡ r) × IsMap m (a + 24) rs

entry_ext : (m n : Mem) (a : ℕ) → ((x : ℕ) → a ≤ x → x < a + 24 → n x ≡ m x) → entry n a ≡ entry m a
entry_ext m n a same =
    let base = load64_ext n m a (λ x lo hi. same x lo (omega arith)) in
    let len = load64_ext n m (a + 8) (λ x lo hi. same x (omega arith) (omega arith)) in
    let kind : load32 n (a + 16) ≡ load32 m (a + 16) =
      rw
        (
          same (a + 16) (omega arith) (omega arith),
          same (a + 16 + 1) (omega arith) (omega arith),
          same (a + 16 + 2) (omega arith) (omega arith),
          same (a + 16 + 3) (omega arith) (omega arith),
        )
        refl in
    rw (base, len, kind) refl

IsMap-ext :
    (m n : Mem) (a : ℕ) (rs : List Region)
    → ((x : ℕ) → a ≤ x → x < a + 24 * length rs → n x ≡ m x)
    → IsMap m a rs
    → IsMap n a rs
IsMap-ext m n a [] same h = tt
IsMap-ext m n a (r ∷ rs) same (e, h) = (
  entry_ext m n a (λ x lo hi. same x lo (omega arith)) ∙ e,
  IsMap-ext m n (a + 24) rs (λ x lo hi. same x (omega arith) (omega arith)) h,
)

-- The usable pages, the last one first, before those of `fs`.
abbrev pub usable_pages : ℕ → List Region → List ℕ → List ℕ
usable_pages hhdm [] fs = fs
usable_pages hhdm (r ∷ rs) fs =
    usable_pages hhdm rs
      (if r.kind == 1 then region_pages hhdm r.base (page_count r.length) 0 fs else fs)

-- A region of at most 2 GiB that starts at a page boundary and ends within the direct map. Its
-- pages are not on the list, and not where the memory from `low` to `high` is.
pub record Fits (hhdm low high : ℕ) (r : Region) (fs : List ℕ) : Type 0 where
  pub aligned : r.base % 4096 ≡ 0
  pub small : 4096 * page_count r.length ≤ 2 ^ 31
  pub inside : r.base + 4096 * page_count r.length + hhdm ≤ 2 ^ 64
  pub fresh : Unlisted hhdm r.base (page_count r.length) 0 fs
  pub away : (high ≤ r.base + hhdm) ⊎ (r.base + 4096 * page_count r.length + hhdm ≤ low)

abbrev pub AllFit : ℕ → ℕ → ℕ → List Region → List ℕ → Type 0
AllFit hhdm low high [] fs = Unit {0}
AllFit hhdm low high (r ∷ rs) fs =
    ((r.kind == 1) ≡ true → Fits hhdm low high r fs)
    × AllFit hhdm low high rs
        (if r.kind == 1 then region_pages hhdm r.base (page_count r.length) 0 fs else fs)

-- The pool behind the loop over the map, if it ends well.
abbrev pub IsFilled : ℕ → List ℕ → Filled → Type 0
IsFilled hhdm fs halted = ⊥
IsFilled hhdm fs undefined_ = ⊥
IsFilled hhdm fs (filled k) = (k.hhdm ≡ hhdm) × IsPool k fs

-- What the pages of one region do to the pool and to the rest of the map.
record IsAdded (hhdm a : ℕ) (k : Pool) (r : Region) (rs : List Region) (fs : List ℕ) : Type 0 where
  pool : Pool
  added : add_pages (page_count r.length) r.base 0 k ≡ some pool
  same_map : pool.hhdm ≡ hhdm
  is_pool : IsPool pool (region_pages hhdm r.base (page_count r.length) 0 fs)
  map : IsMap pool.mem a rs

region-IsAdded :
    (hhdm a low high : ℕ) (k : Pool) (r : Region) (rs : List Region) (fs : List ℕ)
    → k.hhdm ≡ hhdm
    → IsPool k fs
    → low ≤ a
    → a + 24 * length rs ≤ high
    → IsMap k.mem a rs
    → Fits hhdm low high r fs
    → IsAdded hhdm a k r rs fs
region-IsAdded hhdm a low high k r rs fs d p lo hi h f =
    let n : ℕ = page_count r.length in
    let at : 4096 * (0 + n) ≡ 4096 * n = omega arith in
    let (k', added, same, chained) =
      add_pages-IsPool n r.base 0 k fs p f.aligned (rw at f.small) (rw (at, d) f.inside)
        (subst (λ b. Unlisted b r.base n 0 fs) (sym d) f.fresh) in
    let kept : Kept k r.base (4096 * 0) (4096 * (0 + n)) (some k') =
      subst (λ o. Kept k r.base (4096 * 0) (4096 * (0 + n)) o) added
        (add_pages-Kept n r.base 0 k (rw (at, d) f.inside)) in
    let z : 4096 * 0 ≡ 0 = refl in
    record {
      pool = k';
      added = added;
      same_map = same ∙ d;
      is_pool = subst (λ b. IsPool k' (region_pages b r.base n 0 fs)) d chained;
      map =
          IsMap-ext k.mem k'.mem a rs
            (λ x l u. kept x (let w = f.away in rw (at, d) (ground arith))) h;
    }

init_entries-IsFilled :
    (hhdm : ℕ) (rs : List Region) (a low high : ℕ) (k : Pool) (fs : List ℕ)
    → k.hhdm ≡ hhdm
    → IsPool k fs
    → low ≤ a
    → a + 24 * length rs ≤ high
    → IsMap k.mem a rs
    → AllFit hhdm low high rs fs
    → IsFilled hhdm (usable_pages hhdm rs fs) (init_entries (length rs) a k)
unfolding init_entries
init_entries-IsFilled hhdm [] a low high k fs d p lo hi h fit = (d, p)
init_entries-IsFilled hhdm (r ∷ rs) a low high k fs d p lo hi (e, h) (fit, more) =
    let kind : load32 k.mem (a + 16) ≡ r.kind = ap (λ q. q.kind) e in
    elim (Bool-cases (r.kind == 1)) [
      | inl usable ↦
          let g =
            region-IsAdded hhdm (a + 24) low high k r rs fs d p (omega arith) (omega arith) h
              (fit usable) in
          let b : load64 k.mem a ≡ r.base = ap (λ q. q.base) e in
          let l : load64 k.mem (a + 8) ≡ r.length = ap (λ q. q.length) e in
          let fit' : AllFit hhdm low high rs (region_pages hhdm r.base (page_count r.length) 0 fs) =
            subst
              (λ t.
                AllFit hhdm low high rs
                  (if t then region_pages hhdm r.base (page_count r.length) 0 fs else fs))
              usable more in
          rw (kind, usable, b, l, g.added)
            (init_entries-IsFilled hhdm rs (a + 24) low high g.pool
              (region_pages hhdm r.base (page_count r.length) 0 fs) g.same_map g.is_pool
              (omega arith) (omega arith) g.map fit')
      | inr other ↦
          let fit' : AllFit hhdm low high rs fs =
            subst
              (λ t.
                AllFit hhdm low high rs
                  (if t then region_pages hhdm r.base (page_count r.length) 0 fs else fs))
              other more in
          rw (kind, other)
            (init_entries-IsFilled hhdm rs (a + 24) low high k fs d p (omega arith) (omega arith) h
              fit')
    ]

-- What init_list finds: the tags, with the map and the direct map's address in two of them.
pub record IsBoot (fuel hdr hhdm : ℕ) (m : Mem) (rs : List Region) : Type 0 where
  pub tags : List Tag
  pub linked : IsTags m (load64 m (hdr + 128)) tags
  pub enough : length tags < fuel
  pub map_tag : first memmap_id tags ≢ 0
  pub hhdm_tag : first hhdm_id tags ≢ 0
  pub address : load64 m (first hhdm_id tags + 16) ≡ hhdm
  pub entries : load64 m (first memmap_id tags + 16) ≡ length rs
  pub map : IsMap m (first memmap_id tags + 24) rs
  pub aligned : hhdm % 4096 ≡ 0
  pub nonzero : 0 < hhdm
  pub fit :
      AllFit hhdm (first memmap_id tags + 24) (first memmap_id tags + 24 + 24 * length rs) rs []

-- At boot, with an empty list, init_list turns the boot loader's memory map into the pool: the
-- free list holds every page of the usable regions and no other, each once, the last one first.
-- (The regions are page-aligned, of at most 2 GiB, apart from each other and from the map.)
pub init_list-IsFilled :
    (fuel hdr hhdm : ℕ) (k : Pool) (rs : List Region)
    → k.free_list ≡ 0
    → IsBoot fuel hdr hhdm k.mem rs
    → IsFilled hhdm (usable_pages hhdm rs []) (init_list fuel hdr k)
unfolding init_list
init_list-IsFilled fuel hdr hhdm k rs empty b =
    let map : (first memmap_id b.tags == 0) ≡ false = let ne = b.map_tag in ground arith in
    let direct : (first hhdm_id b.tags == 0) ≡ false = let ne = b.hhdm_tag in ground arith in
    let start : Pool = record k { hhdm = hhdm } in
    rw
      (
        init_list,
        find_tag-first fuel hdr memmap_id k.mem b.tags b.linked b.enough,
        find_tag-first fuel hdr hhdm_id k.mem b.tags b.linked b.enough,
        map,
        direct,
        b.entries,
        b.address,
      )
      (init_entries-IsFilled hhdm rs (first memmap_id b.tags + 24) (first memmap_id b.tags + 24)
        (first memmap_id b.tags + 24 + 24 * length rs) start [] refl
        (record {
          chain = empty;
          in_map = tt;
          distinct = tt;
          map_aligned = b.aligned;
          map_in = b.nonzero;
        })
        (omega arith) (omega arith) b.map b.fit)
