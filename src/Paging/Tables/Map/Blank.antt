-- ===== src/Paging/Tables/Map/Blank.antt =====
-- A table in a zeroed page, as the branch of vm_map for a missing entry makes it.
use aos_kernel.Base.{
  ℕ, zero, suc, ◌+◌, ◌-◌, ◌^◌, ◌≤◌, ◌<◌, ◌≡◌, ap, ap₂, ◌∙◌, false, none, [], ◌∷◌, arith,
  if◌then◌else◌,
}
use aos_kernel.Memory.{Mem}
use aos_kernel.Memory.Word.{load64-zero}
use aos_kernel.Paging.Pte.Laws.{decode-zero}
use aos_kernel.Paging.Pte.{decode}
use aos_kernel.Paging.Tables.{load_pte, next_table, entry_at}
use aos_kernel.Paging.Tables.Walk.{walk}
use aos_kernel.Paging.Tables.Map.Shape.{pages, entry_in}

-- A table in a zeroed page leads nowhere.
module _ (hhdm address i f : ℕ) (m : Mem) (lo : hhdm ≤ f) (hi : f + 4096 ≤ 2 ^ 64)
    (zeroed : (x : ℕ) → f ≤ x → x < f + 4096 → m x ≡ 0) where
  blank_entry : (load_pte m (entry_at hhdm address (f - hhdm) i)).present ≡ false
  blank_entry =
      let (l, h) = entry_in hhdm address (f - hhdm) i (omega arith) in
      let word =
        load64-zero m (entry_at hhdm address (f - hhdm) i)
          (λ x p q. zeroed x (omega arith) (omega arith)) in
      ap (λ w. (decode w).present) word ∙ decode-zero

  pub blank_pages : pages hhdm address (suc i) (f - hhdm) m ≡ f ∷ []
  blank_pages =
      let back : f - hhdm + hhdm ≡ f = omega arith in
      let e = load_pte m (entry_at hhdm address (f - hhdm) i) in
      ap₂ ◌∷◌ back (ap (λ b. if b then pages hhdm address i (next_table e) m else []) blank_entry)

pub blank_walk :
    (hhdm address i f : ℕ) (m : Mem)
    → hhdm ≤ f
    → f + 4096 ≤ 2 ^ 64
    → ((x : ℕ) → f ≤ x → x < f + 4096 → m x ≡ 0)
    → walk hhdm address (suc i) (f - hhdm) m ≡ none
blank_walk hhdm address zero f m lo hi zeroed = rw (blank_entry hhdm address 0 f m lo hi zeroed)
blank_walk hhdm address (suc i) f m lo hi zeroed =
    rw (blank_entry hhdm address (suc i) f m lo hi zeroed)
