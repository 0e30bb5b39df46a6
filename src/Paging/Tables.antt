-- ===== src/Paging/Tables.antt =====
-- vm_map, vm_unmap, vm_protect and translate of kernel/paging.c: the walk through the four
-- levels of page tables. invalidate_tlb, at the end of each, acts on the processor's cache of
-- translations, which is not modelled.
pub mod Walk
pub mod Update
pub mod Map
pub mod Lower
pub mod Space
mod Tests
use aos_kernel.Base.{
  ℕ, zero, suc, ◌+◌, ◌-◌, ◌*◌, ◌/◌, ◌%◌, ◌^◌, Bool, true, false, not, ◌==◌, if◌then◌else◌,
}
use aos_kernel.Memory.{Mem}
use aos_kernel.Memory.Word.{load64, store64}
use aos_kernel.Stdlib.Bytes.{memset}
use aos_kernel.Paging.Pte.{Pte, decode, encode}
use aos_kernel.Paging.Pool.{Pool, pmem_alloc}

-- An entry read and written in memory.
abbrev pub load_pte : Mem → ℕ → Pte
load_pte m a = decode (load64 m a)

abbrev pub store_pte : Mem → ℕ → Pte → Mem
store_pte m a e = store64 m a (encode e)

-- `(address >> (12 + 9 * i)) & 0x1ff`
abbrev pub index : ℕ → ℕ → ℕ
index address i = address / 2 ^ (12 + 9 * i) % 2 ^ 9

-- `e->address << 12`
abbrev pub next_table : Pte → ℕ
next_table e = e.address * 2 ^ 12

module _ (hhdm address : ℕ) where
  -- `&((pte_t*)(root + hhdm))[indices[i]]`
  abbrev pub entry_at : ℕ → ℕ → ℕ
  entry_at root i = ((root + hhdm) % 2 ^ 64 + 8 * index address i) % 2 ^ 64

  -- The loop of vm_unmap: `suc i` stands for level `i`. It does not look at `present`.
  pub unmap_levels : ℕ → ℕ → Mem → Mem
  unmap_levels zero root m = m
  unmap_levels (suc zero) root m =
      let a = entry_at root 0 in store_pte m a (record (load_pte m a) { present = false })
  unmap_levels (suc (suc i)) root m =
      unmap_levels (suc i) (next_table (load_pte m (entry_at root (suc i)))) m

  -- The loop of vm_protect.
  pub protect_levels : Bool → Bool → Bool → ℕ → ℕ → Mem → Bool × Mem
  protect_levels user writable executable zero root m = (true, m)
  protect_levels user writable executable (suc zero) root m =
      let a = entry_at root 0 in
      let e = load_pte m a in
      if not e.present then (false, m) else (
        true,
        store_pte m a (record e { writable = writable; user = user; no_execute = not executable }),
      )
  protect_levels user writable executable (suc (suc i)) root m =
      let e = load_pte m (entry_at root (suc i)) in
      let rest = protect_levels user writable executable (suc i) (next_table e) m in
      if not e.present then (false, m) else rest

  -- The loop of translate, which follows the tables without a look at `present`.
  pub translate_levels : ℕ → ℕ → Mem → ℕ
  translate_levels zero root m = root
  translate_levels (suc i) root m = translate_levels i (next_table (load_pte m (entry_at root i))) m

-- The result is always true.
pub vm_unmap : ℕ → ℕ → Pool → Bool × Pool
vm_unmap root address k = (true, record k { mem = unmap_levels k.hhdm address 4 root k.mem })

pub vm_protect : ℕ → ℕ → Bool → Bool → Bool → Pool → Bool × Pool
vm_protect root address user writable executable k =
    let (done, m) = protect_levels k.hhdm address user writable executable 4 root k.mem in
    (done, record k { mem = m })

-- The address that translate prints as the final one; it only prints.
pub translate : ℕ → ℕ → Pool → ℕ
translate page_table address k =
    translate_levels k.hhdm address 4 page_table k.mem + address % 2 ^ 12

-- A write to the null page, which the kernel runs without, is a page fault, and its handler
-- halts the machine.
pub data Outcome {ℓ} (A : Type ℓ) : Type ℓ where
  done : A → Outcome A
  fault : Outcome A

-- What the branch for a missing entry makes of it. The page `p` is an address in the direct map.
abbrev pub fresh_entry : ℕ → ℕ → Bool → Bool → Bool → ℕ → Pte → Pte
fresh_entry hhdm p user writable executable zero e = record e {
  present = true;
  writable = writable;
  user = user;
  no_execute = not executable;
  address = (p + 2 ^ 64 - hhdm) % 2 ^ 64 / 2 ^ 12 % 2 ^ 51;
}
fresh_entry hhdm p user writable executable (suc i) e = record e {
  present = true;
  writable = true;
  user = true;
  address = (p + 2 ^ 64 - hhdm) % 2 ^ 64 / 2 ^ 12 % 2 ^ 51;
}

module _ (user writable executable : Bool) where
  -- The branch `!e->present` at level `i`, with the rest of the loop after it.
  abbrev pub map_missing : ℕ → ℕ → (ℕ → Pool → Outcome (Bool × Pool)) → Pool → Outcome (Bool × Pool)
  map_missing i a rest k =
      let (p, k') = pmem_alloc k in
      if p == 0
      then fault
      else (let zeroed = memset p 4096 k'.mem in
          let e = fresh_entry k.hhdm p user writable executable i (load_pte zeroed a) in
          let m = store_pte zeroed a e in rest (next_table (load_pte m a)) (record k' { mem = m }))

  -- The loop of vm_map.
  pub map_levels : ℕ → ℕ → ℕ → Pool → Outcome (Bool × Pool)
  map_levels address zero root k = done (true, k)
  map_levels address (suc i) root k =
      let a = entry_at k.hhdm address root i in
      let e = load_pte k.mem a in
      let below = map_levels address i (next_table e) k in
      let missing = map_missing i a (λ table k'. map_levels address i table k') k in
      if e.present then (if i == 0 then done (false, k) else below) else missing

pub vm_map : ℕ → ℕ → Bool → Bool → Bool → Pool → Outcome (Bool × Pool)
vm_map root address user writable executable k =
    map_levels user writable executable (address - address % 2 ^ 12) 4 root k
