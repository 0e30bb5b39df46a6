-- ===== src/Paging/Pool/Chain.antt =====
-- The free list as the list of the pages on it.
use aos_kernel.Base.{
  ℕ, ◌+◌, ◌%◌, ◌^◌, ◌≤◌, ◌<◌, ◌≡◌, ◌≢◌, refl, ap, ◌⊎◌, false, List, [], ◌∷◌, arith, ◌==◌, ==_of_ne,
}
use aos_kernel.Memory.{Mem}
use aos_kernel.Memory.Word.{load64, store64, load64-store64_self, load64_ext, store64_far}
use aos_kernel.Paging.Pool.{Pool, ptov, pmem_alloc, pmem_free}

-- From pointer `p` the links lead through exactly these pages to the null pointer.
abbrev pub IsChain : Mem → ℕ → List ℕ → Type 0
IsChain m p [] = p ≡ 0
IsChain m p (f ∷ fs) = (p ≡ f) × (f ≢ 0) × IsChain m (load64 m f) fs

-- Every page of the list is at a multiple of 4096 above `low`, and ends below 2 ^ 64.
abbrev pub InMap : ℕ → List ℕ → Type 0
InMap low [] = Unit {0}
InMap low (f ∷ fs) = (f % 4096 ≡ 0) × (low ≤ f) × (f + 4096 ≤ 2 ^ 64) × InMap low fs

abbrev pub NotIn : ℕ → List ℕ → Type 0
NotIn a [] = Unit {0}
NotIn a (f ∷ fs) = (a ≢ f) × NotIn a fs

abbrev pub Distinct : List ℕ → Type 0
Distinct [] = Unit {0}
Distinct (f ∷ fs) = NotIn f fs × Distinct fs

-- The pool holds exactly the pages `fs`, each once.
pub record IsPool (k : Pool) (fs : List ℕ) : Type 0 where
  pub chain : IsChain k.mem k.free_list fs
  pub in_map : InMap k.hhdm fs
  pub distinct : Distinct fs
  pub map_aligned : k.hhdm % 4096 ≡ 0
  pub map_in : 0 < k.hhdm

-- The links of the pages are the same in both memories.
abbrev pub SameLinks : Mem → Mem → List ℕ → Type 0
SameLinks m n [] = Unit {0}
SameLinks m n (f ∷ fs) = (load64 n f ≡ load64 m f) × SameLinks m n fs

pub IsChain-same :
    (m n : Mem) (p : ℕ) (fs : List ℕ) → SameLinks m n fs → IsChain m p fs → IsChain n p fs
IsChain-same m n p [] s c = c
IsChain-same m n p (f ∷ fs) s c = (c.0, c.1, rw s.0 (IsChain-same m n (load64 m f) fs s.1 c.2))

-- The memories differ at most within the page at `a`.
abbrev pub SameOutside : ℕ → Mem → Mem → Type 0
SameOutside a m n = (x : ℕ) → (x < a) ⊎ (a + 4096 ≤ x) → n x ≡ m x

-- A change within a page that is not on the list keeps the links.
pub SameLinks-outside :
    (a low : ℕ) (m n : Mem) (fs : List ℕ)
    → a % 4096 ≡ 0
    → NotIn a fs
    → InMap low fs
    → SameOutside a m n
    → SameLinks m n fs
SameLinks-outside a low m n [] al out ins same = tt
SameLinks-outside a low m n (f ∷ fs) al out ins same = (
  load64_ext n m f (λ x lo hi. same x (outside x lo hi)),
  SameLinks-outside a low m n fs al out.1 ins.3 same,
)
  where
    outside : (x : ℕ) → f ≤ x → x < f + 8 → (x < a) ⊎ (a + 4096 ≤ x)
    outside x lo hi = ground (arith, ins.0, out.0, al)

pub store64-SameOutside :
    (m : Mem) (a b v : ℕ) → a ≤ b → b + 8 ≤ a + 4096 → SameOutside a m (store64 m b v)
store64-SameOutside m a b v lo hi x out = store64_far m b v x (ground arith)

pub pmem_alloc-head :
    (k : Pool) (f : ℕ) (fs : List ℕ)
    → IsPool k (f ∷ fs)
    → pmem_alloc k ≡ (f, record k { free_list = load64 k.mem f })
unfolding pmem_alloc
pmem_alloc-head k f fs p = rw (p.chain.0, ==_of_ne f 0 p.chain.1)

-- A pool with a page gives the head of its list, an address in the direct map, and keeps the
-- others.
pub pmem_alloc-IsPool :
    (k : Pool) (f : ℕ) (fs : List ℕ)
    → IsPool k (f ∷ fs)
    → ((pmem_alloc k).0 ≡ f) × (k.hhdm ≤ (pmem_alloc k).0) × IsPool (pmem_alloc k).1 fs
unfolding pmem_alloc
pmem_alloc-IsPool k f fs p =
    let some_left : (k.free_list == 0) ≡ false = ground (arith, p.chain) in
    let same : load64 k.mem k.free_list ≡ load64 k.mem f = ap (load64 k.mem) p.chain.0 in
    rw some_left (
      p.chain.0,
      omega (arith, p.chain.0, p.in_map),
      record {
        chain = rw same p.chain.2;
        in_map = p.in_map.3;
        distinct = p.distinct.1;
        map_aligned = p.map_aligned;
        map_in = p.map_in;
      },
    )

-- An empty pool gives 0 and stays as it is.
pub pmem_alloc-empty : (k : Pool) → IsPool k [] → pmem_alloc k ≡ (0, k)
unfolding pmem_alloc
pmem_alloc-empty k p = ground (arith, p.chain)

head-lt : (k : Pool) (fs : List ℕ) → IsPool k fs → k.free_list < 2 ^ 64
head-lt k [] p = omega (arith, p.chain)
head-lt k (f ∷ fs) p = omega (arith, p.chain, p.in_map)

-- Freeing a page of physical memory that is not on the list puts it in front.
pub pmem_free-IsPool :
    (k : Pool) (p : ℕ) (fs : List ℕ)
    → IsPool k fs
    → p % 4096 ≡ 0
    → p + k.hhdm + 4096 ≤ 2 ^ 64
    → NotIn (ptov k p) fs
    → IsPool (pmem_free p k) (ptov k p ∷ fs)
unfolding pmem_free
pmem_free-IsPool k p fs pool al room out =
    let a = ptov k p in
    let e : a ≡ p + k.hhdm = omega arith in
    let a_al : a % 4096 ≡ 0 = omega (arith, pool.map_aligned) in
    record {
      chain = (
        refl,
        omega (arith, pool.map_in),
        rw (load64-store64_self k.mem a k.free_list (head-lt k fs pool)) (
            IsChain-same k.mem (store64 k.mem a k.free_list) k.free_list fs
              (SameLinks-outside a k.hhdm k.mem (store64 k.mem a k.free_list) fs a_al out
                pool.in_map (store64-SameOutside k.mem a a k.free_list (omega arith) (omega arith)))
              pool.chain),
      );
      in_map = (a_al, omega arith, omega arith, pool.in_map);
      distinct = (out, pool.distinct);
      map_aligned = pool.map_aligned;
      map_in = pool.map_in;
    }
