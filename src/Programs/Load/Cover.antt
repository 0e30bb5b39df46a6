-- ===== src/Programs/Load/Cover.antt =====
-- The parts of a segment cover it.
use aos_kernel.Base.{
  ℕ, zero, suc, ◌+◌, ◌-◌, ◌*◌, ◌/◌, ◌%◌, ◌^◌, ◌≤◌, ◌<◌, ◌≡◌, refl, Bool, true, false, Option, none,
  some, List, [], ◌∷◌, arith, ltb, ◌==◌, Bool-cases, inl, inr,
}
use aos_kernel.Programs.Load.{
  page_size, Phdr, Part, part, then_parts, load_parts, then_all, load_segments,
}

-- The permission bits of `p_flags`: bit 0 is PF_X, bit 1 is PF_W; without any bit, none is given.
pub record HasFlags (flags : ℕ) (p : Part) : Type 0 where
  pub executes : p.execute ≡ (flags % 2 == 1)
  pub writes : p.write ≡ (flags / 2 % 2 == 1)
  pub reads : p.read ≡ ltb 0 flags

-- The parts follow one another in memory and in the file, without a gap, from `vaddr` and
-- `offset` on for `size` bytes, each with the permissions of `flags` and at most PAGE_SIZE long.
abbrev pub Cover : ℕ → ℕ → ℕ → ℕ → List Part → Type 0
Cover flags size vaddr offset [] = size ≡ 0
Cover flags size vaddr offset (p ∷ ps) =
    (p.vaddr ≡ vaddr)
    × (p.offset ≡ offset)
    × HasFlags flags p
    × (0 < p.size)
    × (p.size ≤ page_size)
    × (p.size ≤ size)
    × Cover flags (size - p.size) (vaddr + p.size) (offset + p.size) ps

abbrev pub IsCover : ℕ → ℕ → ℕ → ℕ → Option (List Part) → Type 0
IsCover flags size vaddr offset none = ⊥
IsCover flags size vaddr offset (some ps) = Cover flags size vaddr offset ps

part-HasFlags : (flags vaddr offset size : ℕ) → HasFlags flags (part flags vaddr offset size)
part-HasFlags flags vaddr offset size = record {
  executes = refl;
  writes = refl;
  reads = ground arith;
}

then_parts-IsCover :
    (flags size vaddr offset : ℕ) (rest : Option (List Part))
    → page_size ≤ size
    → IsCover flags (size - page_size) (vaddr + page_size) (offset + page_size) rest
    → IsCover flags size vaddr offset (then_parts (part flags vaddr offset page_size) rest)
then_parts-IsCover flags size vaddr offset none h c = c
then_parts-IsCover flags size vaddr offset (some ps) h c =
    (refl, refl, part-HasFlags flags vaddr offset page_size, omega arith, omega arith, h, c)

load_parts-IsCover :
    (fuel flags size vaddr offset : ℕ)
    → size < page_size * fuel
    → vaddr + size < 2 ^ 64
    → offset + size < 2 ^ 64
    → IsCover flags size vaddr offset (load_parts fuel flags size vaddr offset)
unfolding load_parts
load_parts-IsCover zero flags size vaddr offset f v o = absurd (omega arith)
load_parts-IsCover (suc fuel) flags size vaddr offset f v o = elim (Bool-cases (size == 0)) [
  | inl empty ↦ rw empty (ground arith)
  | inr some_left ↦ rw some_left (elim (Bool-cases (ltb size page_size)) [
    | inl last ↦ rw last (
      refl,
      refl,
      part-HasFlags flags vaddr offset size,
      ground arith,
      ground arith,
      ground arith,
      omega arith,
    )
    | inr more ↦
        let e : (vaddr + page_size) % 2 ^ 64 ≡ vaddr + page_size = ground arith in
        let g : (offset + page_size) % 2 ^ 64 ≡ offset + page_size = ground arith in
        rw (more, e, g)
          (then_parts-IsCover flags size vaddr offset _ (ground arith) (
            load_parts-IsCover fuel flags (size - page_size) (vaddr + page_size)
              (offset + page_size) (ground arith) (ground arith) (ground arith)))
  ])
]

-- The segments of type LOAD, each small enough for the fuel and inside the address space.
abbrev pub Fits : ℕ → List Phdr → Type 0
Fits fuel [] = Unit {0}
Fits fuel (ph ∷ phs) =
    (ph.p_memsz < page_size * fuel)
    × (ph.p_vaddr + ph.p_memsz < 2 ^ 64)
    × (ph.p_offset + ph.p_memsz < 2 ^ 64)
    × Fits fuel phs

-- What is asked of the parts at one program header.
abbrev pub CoversNext : Phdr → (List (List Part) → Type 0) → Bool → List (List Part) → Type 0
CoversNext ph rest false pss = rest pss
CoversNext ph rest true [] = ⊥
CoversNext ph rest true (ps ∷ pss) =
    Cover ph.p_flags ph.p_memsz ph.p_vaddr ph.p_offset ps × rest pss

-- A list of parts for each segment of type LOAD, in order, that covers it.
abbrev pub Covers : List Phdr → List (List Part) → Type 0
Covers [] [] = Unit {0}
Covers [] (ps ∷ pss) = ⊥
Covers (ph ∷ phs) pss = CoversNext ph (λ rest. Covers phs rest) (ph.p_type == 1) pss

abbrev pub AreCovers : List Phdr → Option (List (List Part)) → Type 0
AreCovers phs none = ⊥
AreCovers phs (some pss) = Covers phs pss

then_all-AreCovers :
    (ph : Phdr) (phs : List Phdr) (o : Option (List Part)) (rest : Option (List (List Part)))
    → (ph.p_type == 1) ≡ true
    → IsCover ph.p_flags ph.p_memsz ph.p_vaddr ph.p_offset o
    → AreCovers phs rest
    → AreCovers (ph ∷ phs) (then_all o rest)
then_all-AreCovers ph phs none rest e c cs = c
then_all-AreCovers ph phs (some ps) none e c cs = cs
then_all-AreCovers ph phs (some ps) (some pss) e c cs = rw e (c, cs)

AreCovers-skip :
    (ph : Phdr) (phs : List Phdr) (rest : Option (List (List Part)))
    → (ph.p_type == 1) ≡ false
    → AreCovers phs rest
    → AreCovers (ph ∷ phs) rest
AreCovers-skip ph phs none e cs = cs
AreCovers-skip ph phs (some pss) e cs = rw e cs

-- With fuel for the largest segment, and all segments inside the address space, the loader
-- covers each segment of type LOAD, in order, with parts that follow one another without a gap in
-- memory and in the file: each executable where bit 0 of the segment's p_flags is set, writable
-- where bit 1 is, and readable where any bit is.
pub load_segments-AreCovers :
    (fuel : ℕ) (phs : List Phdr) → Fits fuel phs → AreCovers phs (load_segments fuel phs)
unfolding load_segments
load_segments-AreCovers fuel [] h = tt
load_segments-AreCovers fuel (ph ∷ phs) (f, v, o, h) =
    let rest = load_segments-AreCovers fuel phs h in
    elim (Bool-cases (ph.p_type == 1)) [
      | inl load ↦ rw load (
          then_all-AreCovers ph phs _ _ load
            (load_parts-IsCover fuel ph.p_flags ph.p_memsz ph.p_vaddr ph.p_offset f v o) rest)
      | inr other ↦ rw other (AreCovers-skip ph phs _ other rest)
    ]
