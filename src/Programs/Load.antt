-- ===== src/Programs/Load.antt =====
-- execute_mod of kernel/proc.c up to the stack: the loops over the program headers and over the
-- parts of a segment, as the calls that they make.
pub mod Cover
use aos_kernel.Base.{
  ℕ, zero, suc, ◌+◌, ◌-◌, ◌/◌, ◌%◌, ◌^◌, Bool, true, false, not, Option, none, some, List, [], ◌∷◌,
  ltb, ◌==◌, if◌then◌else◌,
}

-- PAGE_SIZE of kernel/paging.h, half of what a page has.
abbrev pub page_size : ℕ
page_size = 2048

-- The fields of Elf64_Phdr that are read.
pub record Phdr : Type 0 where
  pub p_type : ℕ
  pub p_flags : ℕ
  pub p_offset : ℕ
  pub p_vaddr : ℕ
  pub p_memsz : ℕ

-- One part: `vm_map(root, vaddr, true, true, true)`, the memcpy of `size` bytes from `offset` in
-- the file to `vaddr`, and `vm_protect(root, vaddr, read, write, execute)`.
pub record Part : Type 0 where
  pub vaddr : ℕ
  pub offset : ℕ
  pub size : ℕ
  pub read : Bool
  pub write : Bool
  pub execute : Bool

abbrev pub part : ℕ → ℕ → ℕ → ℕ → Part
part flags vaddr offset size = record {
  vaddr = vaddr;
  offset = offset;
  size = size;
  read = not (flags == 0);
  write = flags / 2 % 2 == 1;
  execute = flags % 2 == 1;
}

abbrev pub then_parts : Part → Option (List Part) → Option (List Part)
then_parts p none = none
then_parts p (some ps) = some (p ∷ ps)

-- The loop `while (size > 0)`, with fuel.
pub load_parts : ℕ → ℕ → ℕ → ℕ → ℕ → Option (List Part)
load_parts zero flags size vaddr offset = none
load_parts (suc fuel) flags size vaddr offset =
    let rest =
      load_parts fuel flags (size - page_size) ((vaddr + page_size) % 2 ^ 64)
        ((offset + page_size) % 2 ^ 64) in
    if size == 0
    then some []
    else if ltb size page_size
    then some (part flags vaddr offset size ∷ [])
    else then_parts (part flags vaddr offset page_size) rest

abbrev pub then_all : Option (List Part) → Option (List (List Part)) → Option (List (List Part))
then_all none rest = none
then_all (some ps) none = none
then_all (some ps) (some pss) = some (ps ∷ pss)

-- The loop over the program headers: the parts of each segment of type LOAD.
pub load_segments : ℕ → List Phdr → Option (List (List Part))
load_segments fuel [] = some []
load_segments fuel (ph ∷ phs) =
    let rest = load_segments fuel phs in
    if ph.p_type == 1
    then then_all (load_parts fuel ph.p_flags ph.p_memsz ph.p_vaddr ph.p_offset) rest
    else rest
