-- ===== src/Paging/Tables/Update.antt =====
-- vm_unmap and vm_protect against the page walk.
use mathlib.Core.Option
use aos_kernel.Base.{
  ℕ, zero, suc, ◌%◌, ◌≡◌, refl, ap, ◌∙◌, Bool, true, false, not, Option, none, some, arith,
  if◌then◌else◌,
}
use aos_kernel.Memory.{Mem}
use aos_kernel.Paging.Pte.{Pte, encode}
use aos_kernel.Paging.Pte.Laws.{decode-Fits}
use aos_kernel.Paging.Pool.{Pool}
use aos_kernel.Paging.Pool.Chain.{NotIn, Distinct}
use aos_kernel.Paging.Tables.{
  load_pte, store_pte, next_table, entry_at, unmap_levels, protect_levels, vm_unmap, vm_protect,
}
use aos_kernel.Paging.Tables.Walk.{
  walk, trail, leaf, reaches, entry_or_none, walk-leaf, walk-store_leaf, walk-store64_far,
  leaf_aligned,
}

-- The walk from the top-level table in the memory of `k`.
abbrev pub lookup_page : ℕ → ℕ → Pool → Option Pte
lookup_page root address k = walk k.hhdm address 4 root k.mem

-- The entries on the way down to the page are four different ones.
abbrev pub IsApart : ℕ → ℕ → Pool → Type 0
IsApart root address k = Distinct (trail k.hhdm address 4 root k.mem)

abbrev cleared : Pte → Pte
cleared e = record e { present = false }

unmap_levels-leaf :
    (hhdm address n root : ℕ) (m : Mem)
    → unmap_levels hhdm address (suc n) root m
      ≡ store_pte m (leaf hhdm address n root m) (cleared (load_pte m (leaf hhdm address n root m)))
unfolding unmap_levels
unmap_levels-leaf hhdm address zero root m = refl
unmap_levels-leaf hhdm address (suc i) root m =
    unmap_levels-leaf hhdm address i (next_table (load_pte m (entry_at hhdm address root (suc i))))
      m

absent : (reached : Bool) (e : Pte) → e.present ≡ false → entry_or_none reached e ≡ none
absent true e h = rw h
absent false e h = refl

-- After vm_unmap the page is not mapped, whether it was or not.
pub vm_unmap-lookup :
    (root address : ℕ) (k : Pool)
    → root % 8 ≡ 0
    → k.hhdm % 8 ≡ 0
    → IsApart root address k
    → lookup_page root address (vm_unmap root address k).1 ≡ none
unfolding vm_unmap
vm_unmap-lookup root address k r h apart =
    let e = cleared (load_pte k.mem (leaf k.hhdm address 3 root k.mem)) in
    rw (unmap_levels-leaf k.hhdm address 3 root k.mem) (
      walk-store_leaf k.hhdm address h 3 root k.mem e r (decode-Fits _) apart
      ∙ absent (reaches k.hhdm address 3 root k.mem) e refl)

-- vm_unmap leaves every page mapped as it was whose walk does not use the changed entry.
pub vm_unmap-others :
    (root address root' other : ℕ) (k : Pool)
    → root % 8 ≡ 0
    → root' % 8 ≡ 0
    → k.hhdm % 8 ≡ 0
    → NotIn (leaf k.hhdm address 3 root k.mem) (trail k.hhdm other 4 root' k.mem)
    → lookup_page root' other (vm_unmap root address k).1 ≡ lookup_page root' other k
unfolding vm_unmap
vm_unmap-others root address root' other k r r' h out =
    let a = leaf k.hhdm address 3 root k.mem in
    rw (unmap_levels-leaf k.hhdm address 3 root k.mem) (
      walk-store64_far k.hhdm other h 4 root' k.mem a (encode (cleared (load_pte k.mem a))) r'
        (leaf_aligned k.hhdm address h 3 root k.mem r) out)

-- The permissions that vm_protect gives an entry.
abbrev pub permitted : Bool → Bool → Bool → Pte → Pte
permitted user writable executable e = record e {
  writable = writable;
  user = user;
  no_execute = not executable;
}

abbrev pub is_some : Option Pte → Bool
is_some none = false
is_some (some e) = true

abbrev protected : Bool → Bool → Bool → Mem → ℕ → Bool → Bool × Mem
protected user writable executable m a reached =
    let e = load_pte m a in
    let changed : Bool × Mem = (true, store_pte m a (permitted user writable executable e)) in
    if reached then (if e.present then changed else (false, m)) else (false, m)

module _ (user writable executable : Bool) where
  protect_levels-leaf :
      (hhdm address n root : ℕ) (m : Mem)
      → protect_levels hhdm address user writable executable (suc n) root m
        ≡ protected user writable executable m
            (leaf hhdm address n root m)
            (reaches hhdm address n root m)
  unfolding protect_levels
  protect_levels-leaf hhdm address zero root m = ground arith
  protect_levels-leaf hhdm address (suc i) root m =
      let e = load_pte m (entry_at hhdm address root (suc i)) in
      rw (protect_levels-leaf hhdm address i (next_table e) m) (ground arith)

  -- The result and the walk after it, by whether the walk reaches the last entry and finds it.
  protected-walk :
      (hhdm address n root : ℕ) (m : Mem) (reached found : Bool)
      → root % 8 ≡ 0
      → hhdm % 8 ≡ 0
      → Distinct (trail hhdm address (suc n) root m)
      → reaches hhdm address n root m ≡ reached
      → (load_pte m (leaf hhdm address n root m)).present ≡ found
      → let (ok, m') = protected user writable executable m (leaf hhdm address n root m) reached in
        (ok ≡ is_some (walk hhdm address (suc n) root m))
        × (walk hhdm address (suc n) root m'
            ≡ Option.map (permitted user writable executable) (walk hhdm address (suc n) root m))
  protected-walk hhdm address n root m false found r h apart e f =
      let found_entry = load_pte m (leaf hhdm address n root m) in
      let w = walk-leaf hhdm address h n root m ∙ ap (λ b. entry_or_none b found_entry) e in
      rw w (refl, refl)
  protected-walk hhdm address n root m true false r h apart e f =
      let found_entry = load_pte m (leaf hhdm address n root m) in
      let w =
        walk-leaf hhdm address h n root m
        ∙ ap (λ b. entry_or_none b found_entry) e
        ∙ absent true found_entry f in
      rw (f, w) (refl, refl)
  protected-walk hhdm address n root m true true r h apart e f =
      let found_entry = load_pte m (leaf hhdm address n root m) in
      let w : walk hhdm address (suc n) root m ≡ some found_entry =
        walk-leaf hhdm address h n root m ∙ ap (λ b. entry_or_none b found_entry) e ∙ rw f in
      let changed = permitted user writable executable found_entry in
      let w' = walk-store_leaf hhdm address h n root m changed r (decode-Fits _) apart in
      let result : Bool × Mem = (true, store_pte m (leaf hhdm address n root m) changed) in
      let step : protected user writable executable m (leaf hhdm address n root m) true ≡ result =
        ap (λ b. if b then result else (false, m)) f in
      rw (step, w)
        (
          refl,
          w' ∙ ap (λ b. entry_or_none b changed) e ∙ ap (λ b. if b then some changed else none) f,
        )

  -- vm_protect returns true exactly for a mapped page, changes the permissions of its entry as
  -- asked and nothing else of it, and leaves a page unmapped that is not mapped.
  pub vm_protect-lookup :
      (root address : ℕ) (k : Pool)
      → root % 8 ≡ 0
      → k.hhdm % 8 ≡ 0
      → IsApart root address k
      → let (ok, k') = vm_protect root address user writable executable k in
        (ok ≡ is_some (lookup_page root address k))
        × (lookup_page root address k'
            ≡ Option.map (permitted user writable executable) (lookup_page root address k))
  unfolding vm_protect
  vm_protect-lookup root address k r h apart =
      rw (protect_levels-leaf k.hhdm address 3 root k.mem)
        (protected-walk k.hhdm address 3 root k.mem _ _ r h apart refl refl)
