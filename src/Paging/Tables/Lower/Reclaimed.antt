-- ===== src/Paging/Tables/Lower/Reclaimed.antt =====
-- The free list after unmap_lower_half.
use aos_kernel.Base.{
  ℕ, zero, suc, ◌+◌, ◌*◌, ◌%◌, ◌^◌, ◌≤◌, ◌≡◌, refl, sym, ap, subst, ◌∙◌, inl, inr, Bool-cases, Bool,
  false, List, [], ◌∷◌, ◌++◌, arith, if◌then◌else◌,
}
use aos_kernel.Memory.Word.{store64}
use aos_kernel.Paging.Pte.{encode}
use aos_kernel.Paging.Pool.{Pool, ptov, pmem_free}
use aos_kernel.Paging.Pool.Chain.{
  IsPool, NotIn, IsChain-same, SameLinks-outside, store64-SameOutside, pmem_free-IsPool,
}
use aos_kernel.Paging.Tables.{load_pte}
use aos_kernel.Paging.Tables.Lower.{clear_entry, unmap_entry, unmap_entries, unmap_lower_half}
use aos_kernel.Paging.Tables.Lower.Freed.{free_all, entry_frees, lower_frees, unmap_entry-free_all}
use aos_kernel.Paging.Tables.Lower.Root.{AllClear, AllClear-++, free_all-hhdm}

-- The list with the pages of `ps` put in front one after the other.
abbrev pub pushed : ℕ → List ℕ → List ℕ → List ℕ
pushed hhdm [] fs = fs
pushed hhdm (p ∷ ps) fs = pushed hhdm ps ((p + hhdm) % 2 ^ 64 ∷ fs)

-- Each is a page of the direct map that is not on the list when its turn comes.
abbrev pub CanFree : ℕ → List ℕ → List ℕ → Type 0
CanFree hhdm [] fs = Unit {0}
CanFree hhdm (p ∷ ps) fs =
    (p % 4096 ≡ 0)
    × (p + hhdm + 4096 ≤ 2 ^ 64)
    × NotIn ((p + hhdm) % 2 ^ 64) fs
    × CanFree hhdm ps ((p + hhdm) % 2 ^ 64 ∷ fs)

pushed-++ :
    (hhdm : ℕ) (ps qs fs : List ℕ) → pushed hhdm (ps ++ qs) fs ≡ pushed hhdm qs (pushed hhdm ps fs)
pushed-++ hhdm [] qs fs = refl
pushed-++ hhdm (p ∷ ps) qs fs = pushed-++ hhdm ps qs ((p + hhdm) % 2 ^ 64 ∷ fs)

CanFree-++ :
    (hhdm : ℕ) (ps qs fs : List ℕ)
    → CanFree hhdm (ps ++ qs) fs
    → CanFree hhdm ps fs × CanFree hhdm qs (pushed hhdm ps fs)
CanFree-++ hhdm [] qs fs h = (tt, h)
CanFree-++ hhdm (p ∷ ps) qs fs (a, b, c, h) =
    let (l, r) = CanFree-++ hhdm ps qs ((p + hhdm) % 2 ^ 64 ∷ fs) h in ((a, b, c, l), r)

free_all-IsPool :
    (ps : List ℕ) (k : Pool) (fs : List ℕ)
    → IsPool k fs
    → CanFree k.hhdm ps fs
    → IsPool (free_all ps k) (pushed k.hhdm ps fs)
unfolding pmem_free
free_all-IsPool [] k fs pool c = pool
free_all-IsPool (p ∷ ps) k fs pool (al, room, out, c) =
    free_all-IsPool ps (pmem_free p k) (ptov k p ∷ fs) (pmem_free-IsPool k p fs pool al room out) c

pub NotIn-pushed :
    (base hhdm : ℕ) (ps fs : List ℕ)
    → AllClear base hhdm ps
    → NotIn base fs
    → NotIn base (pushed hhdm ps fs)
NotIn-pushed base hhdm [] fs c n = n
NotIn-pushed base hhdm (p ∷ ps) fs (c, cs) n =
    NotIn-pushed base hhdm ps ((p + hhdm) % 2 ^ 64 ∷ fs) cs (ground arith, n)

-- A store in the top table leaves the list alone.
stored-IsPool :
    (base a w : ℕ) (k : Pool) (fs : List ℕ)
    → base % 4096 ≡ 0
    → base ≤ a
    → a + 8 ≤ base + 4096
    → NotIn base fs
    → IsPool k fs
    → IsPool (record k { mem = store64 k.mem a w }) fs
stored-IsPool base a w k fs al lo hi n pool = record {
  chain =
      IsChain-same k.mem (store64 k.mem a w) k.free_list fs
        (SameLinks-outside base k.hhdm k.mem (store64 k.mem a w) fs al n pool.in_map
          (store64-SameOutside k.mem base a w lo hi))
        pool.chain;
  in_map = pool.in_map;
  distinct = pool.distinct;
  map_aligned = pool.map_aligned;
  map_in = pool.map_in;
}

unmap_entry-IsPool :
    (base a : ℕ) (k : Pool) (fs : List ℕ)
    → base % 4096 ≡ 0
    → base ≤ a
    → a + 8 ≤ base + 4096
    → NotIn base fs
    → IsPool k fs
    → CanFree k.hhdm (entry_frees a k) fs
    → IsPool (unmap_entry a k) (pushed k.hhdm (entry_frees a k) fs)
      × ((unmap_entry a k).hhdm ≡ k.hhdm)
unmap_entry-IsPool base a k fs al lo hi n pool c =
    let e = encode (record (load_pte k.mem a) { present = false }) in
    let ps = entry_frees a k in
    (
      subst (λ k'. IsPool k' (pushed k.hhdm ps fs)) (sym (unmap_entry-free_all a k))
          (free_all-IsPool ps (clear_entry a k) fs (stored-IsPool base a e k fs al lo hi n pool) c),
      ap (λ q. q.hhdm) (unmap_entry-free_all a k) ∙ free_all-hhdm ps (clear_entry a k),
    )

unmap_entries-IsPool :
    (base left a h : ℕ) (k : Pool) (fs : List ℕ)
    → k.hhdm ≡ h
    → base % 4096 ≡ 0
    → base ≤ a
    → a + 8 * left ≤ base + 4096
    → NotIn base fs
    → IsPool k fs
    → AllClear base h (lower_frees left a k)
    → CanFree h (lower_frees left a k) fs
    → IsPool (unmap_entries left a k) (pushed h (lower_frees left a k) fs)
unfolding unmap_entries
unmap_entries-IsPool base zero a h k fs d al lo hi n pool c f = pool
unmap_entries-IsPool base (suc left) a h k fs d al lo hi n pool c f =
    let frees = λ (b : Bool).
      let rest = lower_frees left (a + 8) (if b then unmap_entry a k else k) in
      if b then entry_frees a k ++ rest else rest in
    let u : Pool = unmap_entry a k in
    let ps = entry_frees a k in
    let qs = lower_frees left (a + 8) u in
    elim (Bool-cases (load_pte k.mem a).present) [
      | inl on ↦
          let (c1, c2) = AllClear-++ base h ps qs (subst (λ b. AllClear base h (frees b)) on c) in
          let (f1, f2) = CanFree-++ h ps qs fs (subst (λ b. CanFree h (frees b) fs) on f) in
          let (now, same) =
            unmap_entry-IsPool base a k fs al lo (omega arith) n pool
              (subst (λ b. CanFree b ps fs) (sym d) f1) in
          let now' : IsPool u (pushed h ps fs) = subst (λ b. IsPool u (pushed b ps fs)) d now in
          let later =
            unmap_entries-IsPool base left (a + 8) h u (pushed h ps fs) (same ∙ d) al (omega arith)
              (omega arith) (NotIn-pushed base h ps fs c1 n) now' c2 f2 in
          rw on (
            subst (λ l. IsPool (unmap_entries left (a + 8) u) l) (sym (pushed-++ h ps qs fs)) later)
      | inr off ↦ rw off (
          unmap_entries-IsPool base left (a + 8) h k fs d al (omega arith) (omega arith) n pool
            (subst (λ b. AllClear base h (frees b)) off c)
            (subst (λ b. CanFree h (frees b) fs) off f))
    ]

-- unmap_lower_half puts the pages that it frees on the free list one after the other, and the
-- list stays one: if each is a page of the direct map that is not on the list when its turn
-- comes, and the top table is neither one of them nor on the list.
pub unmap_lower_half-IsPool :
    (root : ℕ) (k : Pool) (fs : List ℕ)
    → ptov k root % 4096 ≡ 0
    → NotIn (ptov k root) fs
    → IsPool k fs
    → AllClear (ptov k root) k.hhdm (lower_frees 256 (ptov k root) k)
    → CanFree k.hhdm (lower_frees 256 (ptov k root) k) fs
    → IsPool (unmap_lower_half root k) (pushed k.hhdm (lower_frees 256 (ptov k root) k) fs)
unfolding unmap_lower_half
unmap_lower_half-IsPool root k fs al n pool c f =
    unmap_entries-IsPool (ptov k root) 256 (ptov k root) k.hhdm k fs refl al (omega arith)
      (omega arith) n pool c f
