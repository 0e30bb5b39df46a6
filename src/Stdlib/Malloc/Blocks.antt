-- ===== src/Stdlib/Malloc/Blocks.antt =====
-- Requests of at most a page get blocks that are aligned, mapped and apart from one another.
use aos_kernel.Base.{
  ℕ, ◌+◌, ◌*◌, ◌%◌, ◌^◌, ◌≤◌, ◌<◌, ◌≡◌, ◌≢◌, ◌⊎◌, List, [], ◌∷◌, arith, ◌==◌, if◌then◌else◌, length,
}
use aos_kernel.Stdlib.Malloc.{Arena, page_size, mmap, malloc, malloc_all}

-- Before the first request the region is empty; later it ends where the kernel maps next.
pub record IsValid (a : Arena) : Type 0 where
  pub region : (a.space_remaining ≡ 0) ⊎ ((0 < a.bump) × (a.bump + a.space_remaining ≡ a.v_heap))
  pub aligned : a.bump % 16 ≡ 0
  pub paged : a.v_heap % page_size ≡ 0
  pub started : 0 < a.v_heap

-- Everything handed out so far lies below this address.
abbrev pub frontier : Arena → ℕ
frontier a = if a.space_remaining == 0 then a.v_heap else a.bump

-- What a request of `size` bytes gets from arena `a`: address `p`, and arena `b` after it.
pub record IsBlock (size : ℕ) (a : Arena) (p : ℕ) (b : Arena) : Type 0 where
  pub valid : IsValid b
  pub above : frontier a ≤ p
  pub below : p + size ≤ frontier b
  pub mapped : frontier b ≤ b.v_heap
  pub aligned : p % 16 ≡ 0
  pub found : p ≢ 0
  pub grown : b.v_heap ≤ a.v_heap + page_size

-- A request of 1 to 2048 bytes, while the address space lasts, gets a block above all earlier
-- ones and inside the mapped heap, at a nonzero multiple of 16, and keeps the invariant.
pub malloc-IsBlock :
    (size : ℕ) (a : Arena)
    → IsValid a
    → 0 < size
    → size ≤ page_size
    → a.v_heap + page_size < 2 ^ 64
    → IsBlock size a (malloc size a).0 (malloc size a).1
unfolding malloc mmap
malloc-IsBlock size a v pos small room = ground arith

-- Blocks in order from `low` on, each ending where the next may begin.
abbrev pub Apart : ℕ → List (ℕ × ℕ) → Type 0
Apart low [] = Unit {0}
Apart low ((p, size) ∷ bs) = (low ≤ p) × Apart (p + size) bs

abbrev pub Small : List ℕ → Type 0
Small [] = Unit {0}
Small (size ∷ sizes) = (0 < size) × (size ≤ page_size) × Small sizes

Apart-mono : (low high : ℕ) (bs : List (ℕ × ℕ)) → low ≤ high → Apart high bs → Apart low bs
Apart-mono low high [] h d = tt
Apart-mono low high (b ∷ bs) h d = (omega arith, d.1)

-- Any sequence of requests of 1 to 2048 bytes, while the address space lasts, gets blocks that
-- follow one another without overlap.
pub malloc_all-Apart :
    (sizes : List ℕ) (a : Arena)
    → IsValid a
    → Small sizes
    → a.v_heap + length sizes * page_size < 2 ^ 64
    → Apart (frontier a) (malloc_all sizes a)
unfolding malloc_all
malloc_all-Apart [] a v small room = tt
malloc_all-Apart (size ∷ sizes) a v (pos, le, small) room =
    let b = malloc-IsBlock size a v pos le (omega arith) in
    (
      b.above,
      Apart-mono _ _ _ b.below
          (malloc_all-Apart sizes (malloc size a).1 b.valid small (omega (arith, b.grown))),
    )
