-- ===== src/Memory/Text.antt =====
-- C strings in memory: nonzero bytes, then a zero.
use aos_kernel.Base.{ℕ, suc, ◌+◌, ◌≤◌, ◌<◌, ◌≡◌, ◌∙◌, ◌≢◌, List, [], ◌∷◌, arith, length}
use aos_kernel.Memory.{Mem}

-- The string `s` stands at address `a`.
abbrev pub IsString : Mem → ℕ → List ℕ → Type 0
IsString m a [] = m a ≡ 0
IsString m a (c ∷ s) = (m a ≡ c) × (c ≢ 0) × IsString m (a + 1) s

-- A string holds no zero byte.
abbrev pub IsText : List ℕ → Type 0
IsText [] = Unit {0}
IsText (c ∷ s) = (c ≢ 0) × IsText s

-- Memory that agrees on the string and its terminator holds the same string.
pub IsString-ext :
    (m n : Mem) (a : ℕ) (s : List ℕ)
    → ((x : ℕ) → a ≤ x → x < a + suc (length s) → n x ≡ m x)
    → IsString m a s
    → IsString n a s
IsString-ext m n a [] same h = same a (omega arith) (omega arith) ∙ h
IsString-ext m n a (c ∷ s) same (e, ne, rest) = (
  same a (omega arith) (omega arith) ∙ e,
  ne,
  IsString-ext m n (a + 1) s (λ x p q. same x (omega arith) (omega arith)) rest,
)
