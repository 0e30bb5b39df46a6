-- ===== src/Paging/Tables/Space/Examples.antt =====
-- A pool with any number of free pages behind an empty top table at 0x1000.
use aos_kernel.Base.{
  ℕ, zero, suc, ◌+◌, ◌*◌, ◌≤◌, ◌<◌, ◌≡◌, ◌≢◌, refl, sym, subst, ◌∙◌, List, [], ◌∷◌, arith,
}
use aos_kernel.Memory.Word.{store64_far}
use aos_kernel.Paging.Pool.{Pool, ptov, pmem_free}
use aos_kernel.Paging.Pool.Chain.{IsPool, NotIn, pmem_free-IsPool}
use aos_kernel.Paging.Tables.Space.{IsTree, NotFree}
use aos_kernel.Paging.Tables.Space.Blank.{blank-IsTree, blank_inside}
use aos_kernel.Paging.Tables.Space.Laws.{IsSpace}

abbrev pub high_half : ℕ
high_half = 0xffff800000000000

-- The pages lie behind 0x2000.
abbrev pub many_free : ℕ → Pool
many_free zero = record { mem = λ _. 0; hhdm = high_half; free_list = 0 }
many_free (suc n) = pmem_free (0x2000 + n * 0x1000) (many_free n)

abbrev pub many_pages : ℕ → List ℕ
many_pages zero = []
many_pages (suc n) = (high_half + 0x2000 + n * 0x1000) ∷ many_pages n

many_free-hhdm : (n : ℕ) → (many_free n).hhdm ≡ high_half
unfolding pmem_free
many_free-hhdm zero = refl
many_free-hhdm (suc n) = many_free-hhdm n

many_pages_far :
    (n a : ℕ) → ((i : ℕ) → i < n → a ≢ high_half + 0x2000 + i * 0x1000) → NotIn a (many_pages n)
many_pages_far zero a h = tt
many_pages_far (suc n) a h = (h n (omega arith), many_pages_far n a (λ i l. h i (omega arith)))

many_free-IsPool : (n : ℕ) → n < 1000 → IsPool (many_free n) (many_pages n)
many_free-IsPool zero l = record {
  chain = refl;
  in_map = tt;
  distinct = tt;
  map_aligned = refl;
  map_in = omega arith;
}
many_free-IsPool (suc n) l =
    let p = 0x2000 + n * 0x1000 in
    let h = many_free-hhdm n in
    let at : ptov (many_free n) p ≡ high_half + 0x2000 + n * 0x1000 = omega arith in
    subst (λ a. IsPool (many_free (suc n)) (a ∷ many_pages n)) at
      (pmem_free-IsPool (many_free n) p (many_pages n) (many_free-IsPool n (omega arith))
        (omega arith) (omega arith)
        (subst (λ a. NotIn a (many_pages n)) (sym at)
          (many_pages_far n (high_half + 0x2000 + n * 0x1000) (λ i q. omega arith))))

empty_table :
    (n x : ℕ) → n < 1000 → high_half + 0x1000 ≤ x → x < high_half + 0x2000 → (many_free n).mem x ≡ 0
unfolding pmem_free
empty_table zero x l lo hi = refl
empty_table (suc n) x l lo hi =
    let h = many_free-hhdm n in
    store64_far (many_free n).mem (ptov (many_free n) (0x2000 + n * 0x1000)) (many_free n).free_list
      x (omega arith)
    ∙ empty_table n x (omega arith) lo hi

pub many_free-IsSpace : (n : ℕ) → n < 1000 → IsSpace 0x1000 (many_free n) (many_pages n)
many_free-IsSpace n l =
    let m = (many_free n).mem in
    let zeroed = λ (x : ℕ) (lo : high_half + 0x1000 ≤ x) (hi : x < high_half + 0x1000 + 4096).
      empty_table n x l lo (omega arith) in
    record {
      pool = many_free-IsPool n l;
      high = omega (arith, many_free-hhdm n);
      tree =
          subst (λ h. IsTree h 4 0x1000 m) (sym (many_free-hhdm n))
            (blank-IsTree high_half (high_half + 0x1000) m (omega arith) (omega arith) (omega arith)
              zeroed 4);
      free =
          subst (λ h. NotFree h 4 0x1000 m (many_pages n)) (sym (many_free-hhdm n))
            (λ q x.
              subst (λ a. NotIn a (many_pages n))
                (sym (
                  blank_inside high_half (high_half + 0x1000) m (omega arith) (omega arith)
                    (omega arith) zeroed 4 q x))
                (many_pages_far n (high_half + 0x1000) (λ i d. omega arith)));
    }
