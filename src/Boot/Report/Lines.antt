-- ===== src/Boot/Report/Lines.antt =====
-- The lines of memmap_print.
use aos_kernel.Base.{
  ℕ, ◌+◌, ◌<◌, ◌≡◌, refl, ap₂, ◌∙◌, Bool-cases, inl, inr, Option, some, List, [], ◌∷◌, ◌++◌, length,
  false, ◌==◌, if◌then◌else◌, arith,
}
use aos_kernel.Memory.{Mem}
use aos_kernel.Memory.Word.{load64}
use aos_kernel.Paging.Pool.{Region}
use aos_kernel.Print.Digits.{◌>>=◌}
use aos_kernel.Boot.{memmap_id, hhdm_id}
use aos_kernel.Boot.Tags.{Tag, IsTags, first, find_tag-first}
use aos_kernel.Boot.MemoryMap.{IsMap, IsBoot}
use aos_kernel.Boot.Report.{usable_text, region_line, region_lines, faulted, report, memmap_print}

-- The usable regions, in order.
abbrev pub usable : List Region → List Region
usable [] = []
usable (r ∷ rs) = let rest = usable rs in if r.kind == 1 then r ∷ rest else rest

-- A line for each.
abbrev pub lines : ℕ → List Region → Option (List ℕ)
lines hhdm [] = some []
lines hhdm (r ∷ rs) = region_line hhdm r >>= λ line. lines hhdm rs >>= λ out. some (line ++ out)

-- What the loop makes of an entry.
abbrev put_line : ℕ → Region → Option (List ℕ) → Option (List ℕ)
put_line hhdm r rest =
    if r.kind == 1
    then (region_line hhdm r >>= λ line. rest >>= λ out. some (line ++ out))
    else rest

region_lines-lines :
    (hhdm a : ℕ) (m : Mem) (rs : List Region)
    → IsMap m a rs
    → region_lines (length rs) a hhdm m ≡ lines hhdm (usable rs)
unfolding region_lines
region_lines-lines hhdm a m [] h = refl
region_lines-lines hhdm a m (r ∷ rs) (e, h) =
    ap₂ (put_line hhdm) e (region_lines-lines hhdm (a + 24) m rs h)
    ∙ elim (Bool-cases (r.kind == 1)) [ inl on ↦ rw on refl | inr off ↦ rw off refl ]

-- With the tags that init_list needs, memmap_print prints its heading and then a line for each
-- usable region of the memory map, in their order, and no other line.
pub memmap_print-lines :
    (fuel hdr hhdm : ℕ) (m : Mem) (rs : List Region)
    → IsBoot fuel hdr hhdm m rs
    → memmap_print fuel hdr m ≡ report usable_text (lines hhdm (usable rs))
unfolding memmap_print
memmap_print-lines fuel hdr hhdm m rs b =
    let map : (first memmap_id b.tags == 0) ≡ false = let ne = b.map_tag in ground arith in
    let direct : (first hhdm_id b.tags == 0) ≡ false = let ne = b.hhdm_tag in ground arith in
    rw
      (
        memmap_print,
        find_tag-first fuel hdr memmap_id m b.tags b.linked b.enough,
        find_tag-first fuel hdr hhdm_id m b.tags b.linked b.enough,
        map,
        direct,
        b.entries,
        b.address,
        region_lines-lines hhdm (first memmap_id b.tags + 24) m rs b.map,
      )
      refl

-- Without a tag for the direct map, memmap_print reads through a null pointer before its test
-- for one.
pub memmap_print-faulted :
    (fuel hdr : ℕ) (m : Mem) (tags : List Tag)
    → IsTags m (load64 m (hdr + 128)) tags
    → length tags < fuel
    → first hhdm_id tags ≡ 0
    → memmap_print fuel hdr m ≡ faulted
unfolding memmap_print
memmap_print-faulted fuel hdr m tags linked enough absent =
    rw
      (
        memmap_print,
        find_tag-first fuel hdr memmap_id m tags linked enough,
        find_tag-first fuel hdr hhdm_id m tags linked enough,
        absent,
      )
      refl
