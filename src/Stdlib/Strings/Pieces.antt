-- ===== src/Stdlib/Strings/Pieces.antt =====
-- The strings that words leaves behind its pointers.
use aos_kernel.Base.{
  ℕ, ◌+◌, ◌≤◌, ◌<◌, ◌≡◌, ◌≢◌, refl, ◌∙◌, inl, inr, true, Bool-cases, some, List, [], ◌∷◌, arith,
  length, leb, ltb, if◌then◌else◌,
}
use aos_kernel.Memory.{Mem}
use aos_kernel.Memory.Text.{IsString}
use aos_kernel.Stdlib.Strings.{words}
use aos_kernel.Stdlib.Strings.Words.{is_sep, starts, zeroed, words-starts}

-- A character before the first word.
abbrev pub prefix : ℕ → List (List ℕ) → List (List ℕ)
prefix c [] = (c ∷ []) ∷ []
prefix c (w ∷ ws) = (c ∷ w) ∷ ws

-- The text between the separators; two of them next to each other have an empty word between.
abbrev pub pieces : List ℕ → List (List ℕ)
pieces [] = [] ∷ []
pieces (c ∷ s) = if is_sep c then [] ∷ pieces s else prefix c (pieces s)

-- Each pointer is to its string.
abbrev pub StringsAt : Mem → List ℕ → List (List ℕ) → Type 0
StringsAt m [] [] = Unit {0}
StringsAt m [] (w ∷ ws) = ⊥
StringsAt m (p ∷ ps) [] = ⊥
StringsAt m (p ∷ ps) (w ∷ ws) = IsString m p w × StringsAt m ps ws

-- The bytes of `s` with its separators zeroed.
abbrev IsCut : Mem → ℕ → List ℕ → Type 0
IsCut m a [] = m a ≡ 0
IsCut m a (c ∷ s) = (m a ≡ (if is_sep c then 0 else c)) × (c ≢ 0) × IsCut m (a + 1) s

zeroed-IsCut :
    (n b : ℕ) (m : Mem) (a : ℕ) (s : List ℕ)
    → b ≤ a
    → a + length s ≡ b + n
    → IsString m a s
    → IsCut (zeroed n b m) a s
zeroed-IsCut n b m a [] l e h = ground (arith, h)
zeroed-IsCut n b m a (c ∷ s) l e (h, ne, t) =
    let low : leb b a ≡ true = ground arith in
    let high : ltb a (b + n) ≡ true = ground arith in
    (rw (low, high, h) refl, ne, zeroed-IsCut n b m (a + 1) s (omega arith) (omega arith) t)

prefix-StringsAt :
    (m : Mem) (a c : ℕ) (ps : List ℕ) (ws : List (List ℕ))
    → m a ≡ c
    → c ≢ 0
    → StringsAt m ((a + 1) ∷ ps) ws
    → StringsAt m (a ∷ ps) (prefix c ws)
prefix-StringsAt m a c ps [] e ne h = absurd h
prefix-StringsAt m a c ps (w ∷ ws) e ne (h, t) = ((e, ne, h), t)

IsCut-StringsAt :
    (m : Mem) (a : ℕ) (s : List ℕ) → IsCut m a s → StringsAt m (a ∷ starts a s) (pieces s)
IsCut-StringsAt m a [] h = (h, tt)
IsCut-StringsAt m a (c ∷ s) (e, ne, h) = elim (Bool-cases (is_sep c)) [
  | inl sep ↦ rw sep (e ∙ rw sep refl, IsCut-StringsAt m (a + 1) s h)
  | inr other ↦ rw other (
      prefix-StringsAt m a c (starts (a + 1) s) (pieces s) (e ∙ rw other refl) ne
        (IsCut-StringsAt m (a + 1) s h))
]

pub zeroed-StringsAt :
    (str : ℕ) (m : Mem) (s : List ℕ)
    → IsString m str s
    → StringsAt (zeroed (length s) str m) (str ∷ starts str s) (pieces s)
zeroed-StringsAt str m s h =
    IsCut-StringsAt (zeroed (length s) str m) str s
      (zeroed-IsCut (length s) str m str s (omega arith) refl h)

-- words of a string leaves behind its pointers the words of the text, in order: what stands
-- between the spaces and line feeds, also where that is empty.
pub words-pieces :
    (fuel str : ℕ) (m : Mem) (s : List ℕ)
    → IsString m str s
    → length s < fuel
    → (out : List ℕ) × (m' : Mem) × (words fuel str m ≡ some (out, m'))
      × StringsAt m' out (pieces s)
words-pieces fuel str m s h l = (
  str ∷ starts str s,
  zeroed (length s) str m,
  words-starts fuel str m s h l,
  IsCut-StringsAt (zeroed (length s) str m) str s
      (zeroed-IsCut (length s) str m str s (omega arith) refl h),
)
