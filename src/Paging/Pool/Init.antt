-- ===== src/Paging/Pool/Init.antt =====
-- init_list of kernel/paging.c on the boot loader's tags: the pool that it leaves.
use aos_kernel.Base.{
  ℕ, zero, suc, ◌+◌, ◌*◌, ◌%◌, ◌^◌, ◌≤◌, ◌<◌, ◌≡◌, ◌⊎◌, refl, sym, subst, some, List, [], ◌∷◌,
  arith, ltb, ltb_of_lt, inl, inr, Bool-cases, Option, none, ◌∙◌,
}
use aos_kernel.Memory.Word.{store64, store64_far}
use aos_kernel.Paging.Pool.{Pool, ptov, add_pages, pmem_free}
use aos_kernel.Paging.Pool.Chain.{IsPool, NotIn, pmem_free-IsPool}

-- The pages of a region, the last one first, as addresses of the direct map.
abbrev pub region_pages : ℕ → ℕ → ℕ → ℕ → List ℕ → List ℕ
region_pages hhdm base zero j fs = fs
region_pages hhdm base (suc left) j fs =
    region_pages hhdm base left (j + 1) ((base + 4096 * j + hhdm) ∷ fs)

-- No page of the region from `j` on is on the list.
abbrev pub Unlisted : ℕ → ℕ → ℕ → ℕ → List ℕ → Type 0
Unlisted hhdm base left j [] = Unit {0}
Unlisted hhdm base left j (f ∷ fs) =
    ((f < base + 4096 * j + hhdm) ⊎ (base + 4096 * (j + left) + hhdm ≤ f))
    × Unlisted hhdm base left j fs

Unlisted-suc :
    (hhdm base left j : ℕ) (fs : List ℕ)
    → Unlisted hhdm base (suc left) j fs
    → Unlisted hhdm base left (j + 1) fs
Unlisted-suc hhdm base left j [] out = tt
Unlisted-suc hhdm base left j (f ∷ fs) out =
    (ground (arith, out.0), Unlisted-suc hhdm base left j fs out.1)

Unlisted-NotIn :
    (hhdm base left j : ℕ) (fs : List ℕ)
    → Unlisted hhdm base (suc left) j fs
    → NotIn (base + 4096 * j + hhdm) fs
Unlisted-NotIn hhdm base left j [] out = tt
Unlisted-NotIn hhdm base left j (f ∷ fs) out =
    (ground (arith, out.0), Unlisted-NotIn hhdm base left j fs out.1)

-- A region of at most 2 GiB that starts at a page boundary, ends within the direct map and shares
-- no page with the pool is added to the pool page by page, the last page in front.
pub add_pages-IsPool :
    (left base j : ℕ) (k : Pool) (fs : List ℕ)
    → IsPool k fs
    → base % 4096 ≡ 0
    → 4096 * (j + left) ≤ 2 ^ 31
    → base + 4096 * (j + left) + k.hhdm ≤ 2 ^ 64
    → Unlisted k.hhdm base left j fs
    → (k' : Pool) × (add_pages left base j k ≡ some k')
      × (k'.hhdm ≡ k.hhdm)
      × IsPool k' (region_pages k.hhdm base left j fs)
unfolding add_pages pmem_free
add_pages-IsPool zero base j k fs p al small room out = (k, refl, refl, p)
add_pages-IsPool (suc left) base j k fs p al small room out =
    let curr = base + 4096 * j in
    let whole : curr % 2 ^ 64 ≡ curr = omega arith in
    let there : ptov k curr ≡ curr + k.hhdm = omega arith in
    let fresh = Unlisted-NotIn k.hhdm base left j fs out in
    let freed : IsPool (pmem_free curr k) ((curr + k.hhdm) ∷ fs) =
      subst (λ a. IsPool (pmem_free curr k) (a ∷ fs)) there
        (pmem_free-IsPool k curr fs p (omega arith) (omega arith)
          (subst (λ a. NotIn a fs) (sym there) fresh)) in
    rw (whole, ltb_of_lt (4096 * j) (2 ^ 31) (omega arith))
      (add_pages-IsPool left base (j + 1) (pmem_free curr k) ((curr + k.hhdm) ∷ fs) freed al
        (omega arith) (omega arith) (inl (omega arith), Unlisted-suc k.hhdm base left j fs out))

-- Memory outside of the pages of a region is as before.
abbrev pub Kept : Pool → ℕ → ℕ → ℕ → Option Pool → Type 0
Kept k base low high none = Unit {0}
Kept k base low high (some k') =
    (x : ℕ) → (x < base + low + k.hhdm) ⊎ (base + high + k.hhdm ≤ x) → k'.mem x ≡ k.mem x

Kept-trans :
    (k k1 : Pool) (base low mid high : ℕ) (o : Option Pool)
    → k1.hhdm ≡ k.hhdm
    → low ≤ mid
    → mid ≤ high
    → ((x : ℕ) → (x < base + low + k.hhdm) ⊎ (base + high + k.hhdm ≤ x) → k1.mem x ≡ k.mem x)
    → Kept k1 base mid high o
    → Kept k base low high o
Kept-trans k k1 base low mid high none e l h first rest = tt
Kept-trans k k1 base low mid high (some k') e l h first rest =
    λ x out. rest x (ground arith) ∙ first x out

pub add_pages-Kept :
    (left base j : ℕ) (k : Pool)
    → base + 4096 * (j + left) + k.hhdm ≤ 2 ^ 64
    → Kept k base (4096 * j) (4096 * (j + left)) (add_pages left base j k)
unfolding add_pages
add_pages-Kept zero base j k room = λ x out. refl
add_pages-Kept (suc left) base j k room =
    let curr : ℕ = (base + 4096 * j) % 2 ^ 64 in
    let k1 : Pool = record k {
      mem = store64 k.mem (ptov k curr) k.free_list;
      free_list = ptov k curr;
    } in
    let high : 4096 * (j + 1 + left) ≡ 4096 * (j + suc left) = omega arith in
    let rest : Kept k1 base (4096 * (j + 1)) (4096 * (j + suc left))
        (add_pages left base (j + 1) k1) =
      subst (λ h. Kept k1 base (4096 * (j + 1)) h (add_pages left base (j + 1) k1)) high
        (add_pages-Kept left base (j + 1) k1 (omega arith)) in
    elim (Bool-cases (ltb (4096 * j) (2 ^ 31))) [
      | inl small ↦ rw small (
          Kept-trans k k1 base (4096 * j) (4096 * (j + 1)) (4096 * (j + suc left))
            (add_pages left base (j + 1) k1) refl (omega arith) (omega arith)
            (λ x out. store64_far k.mem (ptov k curr) k.free_list x (ground arith)) rest)
      | inr large ↦ rw large tt
    ]
