-- ===== src/Paging/Tables/Map/Laws.antt =====
-- vm_map on every branch: a page that was not mapped, one that was, and no memory left.

use aos_kernel.Base.{
  ℕ, zero, suc, ◌+◌, ◌-◌, ◌%◌, ◌^◌, ◌≤◌, ◌<◌, ◌≡◌, sym, ap, subst, ◌∙◌, inl, inr, Bool, true, false,
  none, some, List, [], ◌∷◌, arith, length, if◌then◌else◌, Bool-cases, ==_of_ne,
}
use aos_kernel.Memory.{Mem}
use aos_kernel.Paging.Pte.{Pte}
use aos_kernel.Paging.Pool.{Pool}
use aos_kernel.Paging.Pool.Chain.{IsPool, pmem_alloc-empty}
use aos_kernel.Paging.Tables.{
  load_pte, next_table, entry_at, map_missing, vm_map, Outcome, done, fault,
}
use aos_kernel.Paging.Tables.Walk.{walk}
use aos_kernel.Paging.Tables.Map.Shape.{pages, AreTables, IsMapped}
use aos_kernel.Paging.Tables.Map.Descend.{
  loop, loop_present, loop_missing, pages_present, present_step, missing_last, missing_step, k',
  created,
}
use aos_kernel.Paging.Tables.Map.Blank.{blank_pages, blank_walk}

some_ne_none : {e : Pte} → some e ≡ none → ⊥
some_ne_none h = cc

tables_below :
    (hhdm address i root : ℕ) (m : Mem) (fs : List ℕ)
    → (load_pte m (entry_at hhdm address root i)).present ≡ true
    → AreTables (pages hhdm address (suc i) root m) fs hhdm
    → AreTables
        ((root + hhdm)
          ∷ pages hhdm address i (next_table (load_pte m (entry_at hhdm address root i))) m)
        fs
        hhdm
tables_below hhdm address i root m fs pr t =
    subst (λ ps. AreTables ps fs hhdm) (pages_present hhdm address i root m pr) t

module _ (user writable executable : Bool) (address : ℕ) where
  loop-IsMapped :
      (n root : ℕ) (k : Pool) (fs : List ℕ)
      → IsPool k fs
      → 2 ^ 63 ≤ k.hhdm
      → AreTables (pages k.hhdm address (suc n) root k.mem) fs k.hhdm
      → walk k.hhdm address (suc n) root k.mem ≡ none
      → n < length fs
      → IsMapped user writable executable address
          (suc n)
          root
          k
          fs
          (loop user writable executable address (suc n) root k)
  loop-IsMapped n root k [] p high t w l = absurd (omega arith)
  loop-IsMapped zero root k (f ∷ fs) p high t w l =
      elim (Bool-cases (load_pte k.mem (entry_at k.hhdm address root 0)).present) [
        | inl pr ↦ absurd (
            some_ne_none (
              ap (λ b. if b then some (load_pte k.mem (entry_at k.hhdm address root 0)) else none)
                (sym pr)
              ∙ w))
        | inr pr ↦
            missing_last user writable executable address root k f fs p high t.in_map.0 t.in_map.2
              t.used.0.0 t.used.0.1 pr
      ]
  loop-IsMapped (suc n) root k (f ∷ fs) p high t w l =
      elim (Bool-cases (load_pte k.mem (entry_at k.hhdm address root (suc n))).present) [
        | inl pr ↦
            (let t' = tables_below k.hhdm address (suc n) root k.mem (f ∷ fs) pr t in
              let next = next_table (load_pte k.mem (entry_at k.hhdm address root (suc n))) in
              let w' =
                ap (λ b. if b then walk k.hhdm address (suc n) next k.mem else none) (sym pr) ∙ w in
              let below =
                loop-IsMapped n next k (f ∷ fs) p high
                  (record { in_map = t'.in_map.3; distinct = t'.distinct.1; used = t'.used.1 }) w'
                  (omega arith) in
              present_step user writable executable address n root k (f ∷ fs) pr t'.in_map.0
                t'.in_map.2 t'.used.0 t'.distinct.0 below)
        | inr pr ↦
            (let c =
                created user writable executable address (suc n) root k f fs p high t.in_map.0
                  t.in_map.2 t.used.0.0 t.used.0.1 pr in
              let j =
                k' user writable executable address (suc n) root k f fs p high t.in_map.0 t.in_map.2
                  t.used.0.0 t.used.0.1 pr in
              let only = blank_pages k.hhdm address n f j.mem p.in_map.1 p.in_map.2 c.zeroed in
              let below =
                loop-IsMapped n (f - k.hhdm) j fs c.pool high
                  (subst (λ ps. AreTables ps fs k.hhdm) (sym only)
                    (record {
                      in_map = (p.in_map.0, p.in_map.1, p.in_map.2, tt);
                      distinct = (tt, tt);
                      used = (p.distinct.0, tt);
                    }))
                  (blank_walk k.hhdm address n f j.mem p.in_map.1 p.in_map.2 c.zeroed)
                  (omega arith) in
              missing_step user writable executable address n root k f fs p high t.in_map.0
                t.in_map.2 t.used.0.0 t.used.0.1 pr only below)
      ]

  -- A page that is mapped: the loop returns false, and leaves the tables and the pool alone.
  loop_mapped :
      (n root : ℕ) (k : Pool) (e : Pte)
      → walk k.hhdm address (suc n) root k.mem ≡ some e
      → loop user writable executable address (suc n) root k ≡ done (false, k)
  loop_mapped zero root k e w =
      elim (Bool-cases (load_pte k.mem (entry_at k.hhdm address root 0)).present) [
        | inl pr ↦ loop_present user writable executable address 0 root k pr
        | inr pr ↦ absurd (
            some_ne_none (
              sym (
                ap (λ b. if b then some (load_pte k.mem (entry_at k.hhdm address root 0)) else none)
                  (sym pr)
                ∙ w)))
      ]
  loop_mapped (suc n) root k e w =
      let next = next_table (load_pte k.mem (entry_at k.hhdm address root (suc n))) in
      elim (Bool-cases (load_pte k.mem (entry_at k.hhdm address root (suc n))).present) [
        | inl pr ↦
            loop_present user writable executable address (suc n) root k pr
            ∙ ap
                (λ b.
                  if b
                  then done (false, k)
                  else loop user writable executable address (suc n) next k)
                (==_of_ne (suc n) 0 (omega arith))
            ∙ loop_mapped n next k e
                (ap (λ b. if b then walk k.hhdm address (suc n) next k.mem else none) (sym pr) ∙ w)
        | inr pr ↦ absurd (
            some_ne_none (
              sym (
                ap (λ b. if b then walk k.hhdm address (suc n) next k.mem else none) (sym pr) ∙ w)))
      ]

  missing_exhausted :
      (i a : ℕ) (k : Pool)
      → IsPool k []
      → (rest : ℕ → Pool → Outcome (Bool × Pool))
      → map_missing user writable executable i a rest k ≡ fault
  missing_exhausted i a k p rest = rw (pmem_alloc-empty k p)

  -- A page that is not mapped, and no page left: the loop faults.
  loop_exhausted :
      (n root : ℕ) (k : Pool)
      → IsPool k []
      → walk k.hhdm address (suc n) root k.mem ≡ none
      → loop user writable executable address (suc n) root k ≡ fault
  loop_exhausted zero root k p w =
      elim (Bool-cases (load_pte k.mem (entry_at k.hhdm address root 0)).present) [
        | inl pr ↦ absurd (
            some_ne_none (
              ap (λ b. if b then some (load_pte k.mem (entry_at k.hhdm address root 0)) else none)
                (sym pr)
              ∙ w))
        | inr pr ↦
            loop_missing user writable executable address 0 root k pr
            ∙ missing_exhausted 0 (entry_at k.hhdm address root 0) k p
                (λ table j. loop user writable executable address 0 table j)
      ]
  loop_exhausted (suc n) root k p w =
      let next = next_table (load_pte k.mem (entry_at k.hhdm address root (suc n))) in
      elim (Bool-cases (load_pte k.mem (entry_at k.hhdm address root (suc n))).present) [
        | inl pr ↦
            loop_present user writable executable address (suc n) root k pr
            ∙ ap
                (λ b.
                  if b
                  then done (false, k)
                  else loop user writable executable address (suc n) next k)
                (==_of_ne (suc n) 0 (omega arith))
            ∙ loop_exhausted n next k p
                (ap (λ b. if b then walk k.hhdm address (suc n) next k.mem else none) (sym pr) ∙ w)
        | inr pr ↦
            loop_missing user writable executable address (suc n) root k pr
            ∙ missing_exhausted (suc n) (entry_at k.hhdm address root (suc n)) k p
                (λ table j. loop user writable executable address (suc n) table j)
      ]

-- The page that an address lies in.
abbrev pub page_of : ℕ → ℕ
page_of address = address - address % 2 ^ 12

module _ (user writable executable : Bool) (root address : ℕ) (k : Pool) where
  -- With at least four free pages, vm_map of a page that is not mapped returns true and maps it:
  -- the page walk then ends at an entry with the permissions asked for, whose frame was free, the
  -- pool keeps the pages that were not taken, and pages that are neither free nor tables on the
  -- way down keep their bytes. The tables must be pages of the direct map, each met once and none
  -- free, and the direct map in the higher half.
  pub vm_map-IsMapped :
      (fs : List ℕ)
      → IsPool k fs
      → 2 ^ 63 ≤ k.hhdm
      → AreTables (pages k.hhdm (page_of address) 4 root k.mem) fs k.hhdm
      → walk k.hhdm (page_of address) 4 root k.mem ≡ none
      → 4 ≤ length fs
      → IsMapped user writable executable
          (page_of address)
          4
          root
          k
          fs
          (vm_map root address user writable executable k)
  unfolding vm_map
  vm_map-IsMapped fs p high t w l =
      loop-IsMapped user writable executable (page_of address) 3 root k fs p high t w l

  -- vm_map of a page that is mapped returns false and changes nothing.
  pub vm_map_mapped :
      (e : Pte)
      → walk k.hhdm (page_of address) 4 root k.mem ≡ some e
      → vm_map root address user writable executable k ≡ done (false, k)
  unfolding vm_map
  vm_map_mapped e w = loop_mapped user writable executable (page_of address) 3 root k e w

  -- Without a free page, vm_map of a page that is not mapped does not return false: it takes the
  -- null pointer of pmem_alloc for a page, and faults.
  pub vm_map_exhausted :
      IsPool k []
      → walk k.hhdm (page_of address) 4 root k.mem ≡ none
      → vm_map root address user writable executable k ≡ fault
  unfolding vm_map
  vm_map_exhausted p w = loop_exhausted user writable executable (page_of address) 3 root k p w
