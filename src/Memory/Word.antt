-- ===== src/Memory/Word.antt =====
-- Accesses of 64 bits: eight bytes, the lowest first.
use aos_kernel.Base.{ℕ, ◌+◌, ◌*◌, ◌/◌, ◌%◌, ◌^◌, ◌≤◌, ◌<◌, ◌≡◌, ◌∙◌, refl, ◌⊎◌, arith}
use aos_kernel.Memory.{Mem, store}

-- `*(uint64_t*)a`.
unfoldable pub load64 : Mem → ℕ → ℕ
load64 m a =
    m a
    + m (a + 1) * 2 ^ 8
    + m (a + 2) * 2 ^ 16
    + m (a + 3) * 2 ^ 24
    + m (a + 4) * 2 ^ 32
    + m (a + 5) * 2 ^ 40
    + m (a + 6) * 2 ^ 48
    + m (a + 7) * 2 ^ 56

-- `*(uint32_t*)a`, and the bits of `*(int*)a`.
abbrev pub load32 : Mem → ℕ → ℕ
load32 m a = m a + m (a + 1) * 2 ^ 8 + m (a + 2) * 2 ^ 16 + m (a + 3) * 2 ^ 24

abbrev byte_of : ℕ → ℕ → ℕ
byte_of v k = v / 2 ^ (8 * k) % 2 ^ 8

-- `*(uint64_t*)a = v`.
unfoldable pub store64 : Mem → ℕ → ℕ → Mem
store64 m a v =
    store
      (store
        (store
          (store
            (store
              (store (store (store m a (byte_of v 0)) (a + 1) (byte_of v 1)) (a + 2) (byte_of v 2))
              (a + 3) (byte_of v 3))
            (a + 4) (byte_of v 4))
          (a + 5) (byte_of v 5))
        (a + 6) (byte_of v 6))
      (a + 7) (byte_of v 7)

-- What each of the eight bytes holds.
store64_bytes :
    (m : Mem) (a v : ℕ)
    → (store64 m a v a ≡ byte_of v 0)
      × (store64 m a v (a + 1) ≡ byte_of v 1)
      × (store64 m a v (a + 2) ≡ byte_of v 2)
      × (store64 m a v (a + 3) ≡ byte_of v 3)
      × (store64 m a v (a + 4) ≡ byte_of v 4)
      × (store64 m a v (a + 5) ≡ byte_of v 5)
      × (store64 m a v (a + 6) ≡ byte_of v 6)
      × (store64 m a v (a + 7) ≡ byte_of v 7)
unfolding store64
store64_bytes m a v = (
  ground arith,
  ground arith,
  ground arith,
  ground arith,
  ground arith,
  ground arith,
  ground arith,
  ground arith,
)

bytes_sum :
    (v : ℕ)
    → v < 2 ^ 64
    → byte_of v 0
        + byte_of v 1 * 2 ^ 8
        + byte_of v 2 * 2 ^ 16
        + byte_of v 3 * 2 ^ 24
        + byte_of v 4 * 2 ^ 32
        + byte_of v 5 * 2 ^ 40
        + byte_of v 6 * 2 ^ 48
        + byte_of v 7 * 2 ^ 56
      ≡ v
bytes_sum v h = omega arith

-- A write outside the eight bytes is not seen.
pub store64_far : (m : Mem) (a v x : ℕ) → (x < a) ⊎ (a + 8 ≤ x) → store64 m a v x ≡ m x
unfolding store64
store64_far m a v x far = ground arith

pub load64-store64_self : (m : Mem) (a v : ℕ) → v < 2 ^ 64 → load64 (store64 m a v) a ≡ v
unfolding load64 store64
load64-store64_self m a v h =
    let (e0, e1, e2, e3, e4, e5, e6, e7) = store64_bytes m a v in
    rw (e0, e1, e2, e3, e4, e5, e6, e7) (bytes_sum v h)

pub load64-store64_far :
    (m : Mem) (a b v : ℕ) → (b + 8 ≤ a) ⊎ (a + 8 ≤ b) → load64 (store64 m a v) b ≡ load64 m b
unfolding load64
load64-store64_far m a b v far = rw (
  store64_far m a v b (ground arith),
  store64_far m a v (b + 1) (ground arith),
  store64_far m a v (b + 2) (ground arith),
  store64_far m a v (b + 3) (ground arith),
  store64_far m a v (b + 4) (ground arith),
  store64_far m a v (b + 5) (ground arith),
  store64_far m a v (b + 6) (ground arith),
  store64_far m a v (b + 7) (ground arith),
)

-- A word of bytes is below 2 ^ 64.
abbrev pub IsBytes : Mem → Type 0
IsBytes m = (x : ℕ) → m x < 2 ^ 8

pub load64-lt : (m : Mem) (a : ℕ) → IsBytes m → load64 m a < 2 ^ 64
unfolding load64
load64-lt m a h =
    omega (arith, h a, h (a + 1), h (a + 2), h (a + 3), h (a + 4), h (a + 5), h (a + 6), h (a + 7))

pub store64-IsBytes : (m : Mem) (a v : ℕ) → IsBytes m → IsBytes (store64 m a v)
unfolding store64
store64-IsBytes m a v h x = ground (arith, h x)

-- Where eight bytes agree, so do the words.
pub load64_ext :
    (m n : Mem) (a : ℕ) → ((x : ℕ) → a ≤ x → x < a + 8 → m x ≡ n x) → load64 m a ≡ load64 n a
unfolding load64
load64_ext m n a h = rw (
  h a (omega arith) (omega arith),
  h (a + 1) (omega arith) (omega arith),
  h (a + 2) (omega arith) (omega arith),
  h (a + 3) (omega arith) (omega arith),
  h (a + 4) (omega arith) (omega arith),
  h (a + 5) (omega arith) (omega arith),
  h (a + 6) (omega arith) (omega arith),
  h (a + 7) (omega arith) (omega arith),
)

pub load64-zero : (m : Mem) (a : ℕ) → ((x : ℕ) → a ≤ x → x < a + 8 → m x ≡ 0) → load64 m a ≡ 0
load64-zero m a h = load64_ext m (λ _. 0) a h ∙ zeros
  where
    zeros : load64 (λ _. 0) a ≡ 0
    zeros = unfold load64 in refl
