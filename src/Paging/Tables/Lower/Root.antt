-- ===== src/Paging/Tables/Lower/Root.antt =====
-- The top table after unmap_lower_half.
use aos_kernel.Base.{
  ℕ, zero, suc, ◌+◌, ◌*◌, ◌%◌, ◌^◌, ◌≤◌, ◌<◌, ◌≡◌, refl, sym, ap, subst, ◌∙◌, ◌⊎◌, inl, inr,
  Bool-cases, Bool, true, false, none, List, [], ◌∷◌, ◌++◌, arith, ltb, if◌then◌else◌,
}
use aos_kernel.Memory.{Mem}
use aos_kernel.Memory.Word.{store64, load64_ext, store64_far, load64-store64_self}
use aos_kernel.Paging.Pte.{Pte, decode, encode}
use aos_kernel.Paging.Pte.Laws.{decode-encode, encode-lt, decode-Fits}
use aos_kernel.Paging.Pool.{Pool, ptov, pmem_free}
use aos_kernel.Paging.Tables.{load_pte, index, entry_at}
use aos_kernel.Paging.Tables.Update.{lookup_page}
use aos_kernel.Paging.Tables.Lower.{clear_entry, unmap_entry, unmap_entries, unmap_lower_half}
use aos_kernel.Paging.Tables.Lower.Freed.{free_all, entry_frees, lower_frees, unmap_entry-free_all}

-- No freed page begins inside of the table at `base`, or just below it.
abbrev pub AllClear : ℕ → ℕ → List ℕ → Type 0
AllClear base hhdm [] = Unit {0}
AllClear base hhdm (p ∷ ps) =
    (((p + hhdm) % 2 ^ 64 + 8 ≤ base) ⊎ (base + 4096 ≤ (p + hhdm) % 2 ^ 64)) × AllClear base hhdm ps

pub AllClear-++ :
    (base hhdm : ℕ) (ps qs : List ℕ)
    → AllClear base hhdm (ps ++ qs)
    → AllClear base hhdm ps × AllClear base hhdm qs
AllClear-++ base hhdm [] qs h = (tt, h)
AllClear-++ base hhdm (p ∷ ps) qs (c, h) = let (l, r) = AllClear-++ base hhdm ps qs h in ((c, l), r)

pub free_all-hhdm : (ps : List ℕ) (k : Pool) → (free_all ps k).hhdm ≡ k.hhdm
unfolding pmem_free
free_all-hhdm [] k = refl
free_all-hhdm (p ∷ ps) k = free_all-hhdm ps (pmem_free p k)

free_all-kept :
    (base : ℕ) (ps : List ℕ) (k : Pool)
    → AllClear base k.hhdm ps
    → (x : ℕ) → base ≤ x
    → x < base + 4096
    → (free_all ps k).mem x ≡ k.mem x
unfolding pmem_free
free_all-kept base [] k c x lo hi = refl
free_all-kept base (p ∷ ps) k (c, cs) x lo hi =
    free_all-kept base ps (pmem_free p k) cs x lo hi
    ∙ store64_far k.mem (ptov k p) k.free_list x (ground arith)

load_pte_ext :
    (m n : Mem) (a : ℕ) → ((x : ℕ) → a ≤ x → x < a + 8 → m x ≡ n x) → load_pte m a ≡ load_pte n a
load_pte_ext m n a same = ap decode (load64_ext m n a same)

cleared_entry :
    (a : ℕ) (k : Pool)
    → load_pte (clear_entry a k).mem a ≡ record (load_pte k.mem a) { present = false }
cleared_entry a k =
    let e : Pte = record (load_pte k.mem a) { present = false } in
    ap decode (load64-store64_self k.mem a (encode e) (encode-lt e (decode-Fits _)))
    ∙ decode-encode e (decode-Fits _)

-- `left` entries of the table from the one at `a` on are unmapped, the rest of it is as before.
record IsUnmapped (base a left : ℕ) (k k' : Pool) : Type 0 where
  same_map : k'.hhdm ≡ k.hhdm
  kept : (x : ℕ) → base ≤ x → x < base + 4096 → (x < a) ⊎ (a + 8 * left ≤ x) → k'.mem x ≡ k.mem x
  absent : (i : ℕ) → i < left → (load_pte k'.mem (a + 8 * i)).present ≡ false

-- One more entry in front.
next-IsUnmapped :
    (base a left : ℕ) (k k1 k' : Pool)
    → base ≤ a
    → a + 8 * suc left ≤ base + 4096
    → IsUnmapped base a 1 k k1
    → IsUnmapped base (a + 8) left k1 k'
    → IsUnmapped base a (suc left) k k'
next-IsUnmapped base a left k k1 k' lo hi one rest = record {
  same_map = rest.same_map ∙ one.same_map;
  kept = λ x l h out. rest.kept x l h (ground arith) ∙ one.kept x l h (ground arith);
  absent = go;
}
  where
    go : (i : ℕ) → i < suc left → (load_pte k'.mem (a + 8 * i)).present ≡ false
    go zero l =
        ap (λ e. e.present)
          (load_pte_ext k'.mem k1.mem (a + 8 * 0)
            (λ x p q. rest.kept x (omega arith) (omega arith) (inl (omega arith))))
        ∙ one.absent 0 (omega arith)
    go (suc i) l =
        subst (λ b. (load_pte k'.mem b).present ≡ false) (omega arith) (rest.absent i (omega arith))

free_all-IsUnmapped :
    (base a : ℕ) (ps : List ℕ) (k k1 : Pool) (w : ℕ)
    → base ≤ a
    → a + 8 ≤ base + 4096
    → AllClear base k.hhdm ps
    → k1 ≡ record k { mem = store64 k.mem a w }
    → (load_pte k1.mem a).present ≡ false
    → IsUnmapped base a 1 k (free_all ps k1)
free_all-IsUnmapped base a ps k k1 w lo hi c e off =
    let h : k1.hhdm ≡ k.hhdm = ap (λ q. q.hhdm) e in
    let c1 : AllClear base k1.hhdm ps = subst (λ b. AllClear base b ps) (sym h) c in
    let stored : k1.mem ≡ store64 k.mem a w = ap (λ q. q.mem) e in
    record {
      same_map = free_all-hhdm ps k1 ∙ h;
      kept = λ x l u out.
          free_all-kept base ps k1 c1 x l u
          ∙ ap (λ m. m x) stored
          ∙ store64_far k.mem a w x (ground arith);
      absent = λ i l.
          subst (λ b. (load_pte (free_all ps k1).mem b).present ≡ false) (omega arith)
            (ap (λ q. q.present)
                (load_pte_ext (free_all ps k1).mem k1.mem a
                  (λ x p q. free_all-kept base ps k1 c1 x (omega arith) (omega arith)))
              ∙ off);
    }

unmap_entry-IsUnmapped :
    (base a : ℕ) (k : Pool)
    → base ≤ a
    → a + 8 ≤ base + 4096
    → AllClear base k.hhdm (entry_frees a k)
    → IsUnmapped base a 1 k (unmap_entry a k)
unmap_entry-IsUnmapped base a k lo hi c =
    subst (λ k'. IsUnmapped base a 1 k k') (sym (unmap_entry-free_all a k))
      (free_all-IsUnmapped base a (entry_frees a k) k (clear_entry a k)
        (encode (record (load_pte k.mem a) { present = false })) lo hi c refl
        (ap (λ e. e.present) (cleared_entry a k)))

skip : (base a : ℕ) (k : Pool) → (load_pte k.mem a).present ≡ false → IsUnmapped base a 1 k k
skip base a k off = record {
  same_map = refl;
  kept = λ x l h out. refl;
  absent = λ i l. subst (λ b. (load_pte k.mem b).present ≡ false) (omega arith) off;
}

unmap_entries-IsUnmapped :
    (base left a : ℕ) (k : Pool)
    → base ≤ a
    → a + 8 * left ≤ base + 4096
    → AllClear base k.hhdm (lower_frees left a k)
    → IsUnmapped base a left k (unmap_entries left a k)
unfolding unmap_entries
unmap_entries-IsUnmapped base zero a k lo hi c = record {
  same_map = refl;
  kept = λ x l h out. refl;
  absent = λ i l. absurd (omega arith);
}
unmap_entries-IsUnmapped base (suc left) a k lo hi c =
    let frees = λ (b : Bool).
      let rest = lower_frees left (a + 8) (if b then unmap_entry a k else k) in
      if b then entry_frees a k ++ rest else rest in
    elim (Bool-cases (load_pte k.mem a).present) [
      | inl on ↦
          let c1 : AllClear base k.hhdm (frees true) =
            subst (λ b. AllClear base k.hhdm (frees b)) on c in
          let (now, later) =
            AllClear-++ base k.hhdm (entry_frees a k) (lower_frees left (a + 8) (unmap_entry a k))
              c1 in
          let one = unmap_entry-IsUnmapped base a k lo (omega arith) now in
          rw on (
            next-IsUnmapped base a left k (unmap_entry a k)
              (unmap_entries left (a + 8) (unmap_entry a k)) lo hi one
              (unmap_entries-IsUnmapped base left (a + 8) (unmap_entry a k) (omega arith)
                (omega arith)
                (subst (λ h. AllClear base h (lower_frees left (a + 8) (unmap_entry a k)))
                  (sym one.same_map) later)))
      | inr off ↦
          let c1 : AllClear base k.hhdm (frees false) =
            subst (λ b. AllClear base k.hhdm (frees b)) off c in
          rw off (
            next-IsUnmapped base a left k k (unmap_entries left (a + 8) k) lo hi (skip base a k off)
              (unmap_entries-IsUnmapped base left (a + 8) k (omega arith) (omega arith) c1))
    ]

-- The entries of the lower half, and where the direct map is.
pub unmap_lower_half-absent :
    (root : ℕ) (k : Pool)
    → ptov k root % 4096 ≡ 0
    → AllClear (ptov k root) k.hhdm (lower_frees 256 (ptov k root) k)
    → let k' = unmap_lower_half root k in
      (k'.hhdm ≡ k.hhdm)
      × ((i : ℕ) → i < 256 → (load_pte k'.mem (ptov k root + 8 * i)).present ≡ false)
unfolding unmap_lower_half
unmap_lower_half-absent root k al c =
    let base : ℕ = ptov k root in
    let done = unmap_entries-IsUnmapped base 256 base k (omega arith) (omega arith) c in
    (done.same_map, done.absent)

-- After unmap_lower_half, no address of the lower half is mapped, and for every other address the
-- entry of the top table is as it was, if the top table is a page of the direct map and none of
-- the freed pages.
pub unmap_lower_half-lookup :
    (root address : ℕ) (k : Pool)
    → ptov k root % 4096 ≡ 0
    → AllClear (ptov k root) k.hhdm (lower_frees 256 (ptov k root) k)
    → let k' = unmap_lower_half root k in
      ((index address 3 < 256) × (lookup_page root address k' ≡ none))
      ⊎ ((256 ≤ index address 3)
          × (load_pte k'.mem (entry_at k'.hhdm address root 3)
              ≡ load_pte k.mem (entry_at k.hhdm address root 3)))
unfolding unmap_lower_half
unmap_lower_half-lookup root address k al c =
    let base : ℕ = ptov k root in
    let i : ℕ = index address 3 in
    let done = unmap_entries-IsUnmapped base 256 base k (omega arith) (omega arith) c in
    let k' : Pool = unmap_lower_half root k in
    let at : entry_at k.hhdm address root 3 ≡ base + 8 * i = omega arith in
    let at' : entry_at k'.hhdm address root 3 ≡ base + 8 * i =
      ap (λ h. entry_at h address root 3) done.same_map ∙ at in
    elim (Bool-cases (ltb i 256)) [
      | inl low ↦
          let off : (load_pte k'.mem (entry_at k'.hhdm address root 3)).present ≡ false =
            subst (λ b. (load_pte k'.mem b).present ≡ false) (sym at')
              (done.absent i (ground arith)) in
          inl (ground arith, rw off refl)
      | inr high ↦ inr (
        ground arith,
        load_pte_at k'.mem k.mem at' at
            (λ x l u. done.kept x (omega arith) (omega arith) (inr (ground arith))),
      )
    ]
  where
    load_pte_at :
        (m n : Mem) {a b d : ℕ}
        → a ≡ d
        → b ≡ d
        → ((x : ℕ) → d ≤ x → x < d + 8 → m x ≡ n x)
        → load_pte m a ≡ load_pte n b
    load_pte_at m n p q same = rw (p, q) (load_pte_ext m n _ same)
