-- ===== src/Paging/Tables/Map/Create.antt =====
-- The branch of vm_map for a missing entry: a zeroed page from the pool, linked from the entry.
use aos_kernel.Base.{
  ℕ, zero, suc, ◌+◌, ◌-◌, ◌%◌, ◌^◌, ◌≤◌, ◌<◌, ◌≡◌, ◌≢◌, refl, ap, ◌∙◌, ◌⊎◌, ◌&&◌, Bool, List, ◌∷◌,
  arith, leb, ltb, if◌then◌else◌, ==_of_ne,
}
use aos_kernel.Memory.{Mem}
use aos_kernel.Memory.Word.{load64, store64_far, load64-store64_self}
use aos_kernel.Stdlib.Bytes.{memset}
use aos_kernel.Stdlib.Bytes.Laws.{memset_lem}
use aos_kernel.Paging.Pte.{Pte, decode, encode}
use aos_kernel.Paging.Pte.Laws.{Fits, encode-lt, decode-encode, decode-Fits}
use aos_kernel.Paging.Pool.{Pool}
use aos_kernel.Paging.Pool.Chain.{
  IsPool, pmem_alloc-head, NotIn, SameLinks-outside, IsChain-same, SameOutside, store64-SameOutside,
}
use aos_kernel.Paging.Tables.{load_pte, store_pte, next_table, fresh_entry, map_missing, Outcome}

fresh-Fits :
    (hhdm p : ℕ) (user writable executable : Bool) (i : ℕ) (e : Pte)
    → Fits e
    → Fits (fresh_entry hhdm p user writable executable i e)
fresh-Fits hhdm p user writable executable zero e h = omega arith
fresh-Fits hhdm p user writable executable (suc i) e h = omega arith

fresh-next :
    (hhdm p : ℕ) (user writable executable : Bool) (i : ℕ) (e : Pte)
    → p % 4096 ≡ 0
    → hhdm % 4096 ≡ 0
    → 2 ^ 63 ≤ hhdm
    → hhdm ≤ p
    → p + 4096 ≤ 2 ^ 64
    → next_table (fresh_entry hhdm p user writable executable i e) ≡ p - hhdm
fresh-next hhdm p user writable executable zero e al hl high lo hi = omega arith
fresh-next hhdm p user writable executable (suc i) e al hl high lo hi = omega arith

-- The state behind the branch: page `f` is zero and off the list, the entry at `a`, in the page
-- at `v`, is the fresh one, and nothing else has changed.
pub record IsCreated (k : Pool) (f : ℕ) (fs : List ℕ) (v a : ℕ) (e : Pte) (k' : Pool) : Type 0 where
  pub pool : IsPool k' fs
  pub same_map : k'.hhdm ≡ k.hhdm
  pub entry : load_pte k'.mem a ≡ e
  pub table : next_table e ≡ f - k.hhdm
  pub zeroed : (x : ℕ) → f ≤ x → x < f + 4096 → k'.mem x ≡ 0
  pub others : (x : ℕ) → (x < f) ⊎ (f + 4096 ≤ x) → (x < v) ⊎ (v + 4096 ≤ x) → k'.mem x ≡ k.mem x
  pub beside : (x : ℕ) → (x < f) ⊎ (f + 4096 ≤ x) → (x < a) ⊎ (a + 8 ≤ x) → k'.mem x ≡ k.mem x

module _ (user writable executable : Bool) (i : ℕ) (k : Pool) (f : ℕ) (fs : List ℕ) (v a : ℕ)
    (p : IsPool k (f ∷ fs)) (high : 2 ^ 63 ≤ k.hhdm) (v_al : v % 4096 ≡ 0) (v_f : v ≢ f)
    (v_out : NotIn v fs) (a_lo : v ≤ a) (a_hi : a + 8 ≤ v + 4096) where
  abbrev pub blank : Mem
  blank = memset f 4096 k.mem

  abbrev pub fresh : Pte
  fresh = fresh_entry k.hhdm f user writable executable i (load_pte blank a)

  abbrev pub after : Pool
  after = record k { mem = store_pte blank a fresh; free_list = load64 k.mem f }

  blank_at : (x : ℕ) → blank x ≡ (if leb f x && ltb x (f + 4096) then 0 else k.mem x)
  blank_at x = memset_lem f 4096 k.mem x (omega (arith, p.in_map))

  blank_outside : SameOutside f k.mem blank
  blank_outside x out = blank_at x ∙ ground arith

  fits : Fits fresh
  fits = fresh-Fits k.hhdm f user writable executable i (load_pte blank a) (decode-Fits _)

  IsPool-after : IsPool after fs
  IsPool-after = record {
    chain =
        IsChain-same blank after.mem (load64 k.mem f) fs
          (SameLinks-outside v k.hhdm blank after.mem fs v_al v_out p.in_map.3
            (store64-SameOutside blank v a (encode fresh) a_lo a_hi))
          (IsChain-same k.mem blank (load64 k.mem f) fs
            (SameLinks-outside f k.hhdm k.mem blank fs p.in_map.0 p.distinct.0 p.in_map.3
              blank_outside)
            p.chain.2);
    in_map = p.in_map.3;
    distinct = p.distinct.1;
    map_aligned = p.map_aligned;
    map_in = p.map_in;
  }

  pub after-IsCreated : IsCreated k f fs v a fresh after
  after-IsCreated = record {
    pool = IsPool-after;
    same_map = refl;
    entry =
        ap decode (load64-store64_self blank a (encode fresh) (encode-lt fresh fits))
        ∙ decode-encode fresh fits;
    table =
        fresh-next k.hhdm f user writable executable i (load_pte blank a) p.in_map.0 p.map_aligned
          high p.in_map.1 p.in_map.2;
    zeroed = λ x lo hi.
        store64_far blank a (encode fresh) x (ground (arith, p.in_map)) ∙ blank_at x ∙ ground arith;
    others = λ x out_f out_v.
        store64_far blank a (encode fresh) x (ground arith) ∙ blank_outside x out_f;
    beside = λ x out_f out_a.
        store64_far blank a (encode fresh) x (ground arith) ∙ blank_outside x out_f;
  }

  -- The branch goes on with the new table, in the state described above.
  pub map_missing-after :
      (rest : ℕ → Pool → Outcome (Bool × Pool))
      → map_missing user writable executable i a rest k ≡ rest (f - k.hhdm) after
  map_missing-after rest =
      rw (pmem_alloc-head k f fs p, ==_of_ne f 0 p.chain.1)
        (ap (λ t. rest t after) (ap next_table after-IsCreated.entry ∙ after-IsCreated.table))
