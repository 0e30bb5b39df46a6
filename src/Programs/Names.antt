-- ===== src/Programs/Names.antt =====
-- Which names check_mod finds.
use aos_kernel.Base.{
  ℕ, ◌-◌, ◌^◌, ◌<◌, ◌≡◌, ◌⊎◌, inl, inr, refl, Option, none, some, List, [], ◌∷◌, arith, length,
  ◌==◌, if◌then◌else◌, Bool-cases,
}
use aos_kernel.Memory.{Mem}
use aos_kernel.Memory.Text.{IsString}
use aos_kernel.Stdlib.Strings.{my_strcmp}
use aos_kernel.Stdlib.Strings.Laws.{IsCompared, my_strcmp-IsCompared}
use aos_kernel.Programs.{check_mod}

-- The names stand at the addresses of the modules, each short enough for the fuel.
abbrev pub Named : ℕ → Mem → List ℕ → List (List ℕ) → Type 0
Named fuel m [] [] = Unit {0}
Named fuel m [] (n ∷ names) = ⊥
Named fuel m (a ∷ modules) [] = ⊥
Named fuel m (a ∷ modules) (n ∷ names) =
    IsString m a n × (length n < fuel) × Named fuel m modules names

abbrev pub Listed : List ℕ → List (List ℕ) → Type 0
Listed s [] = ⊥
Listed s (n ∷ names) = (n ≡ s) ⊎ Listed s names

-- What check_mod returns for the name `s`.
abbrev pub IsChecked : List ℕ → List (List ℕ) → Option ℕ → Type 0
IsChecked s names none = ⊥
IsChecked s names (some r) = ((r ≡ 0) × Listed s names) ⊎ ((r ≡ 2 ^ 32 - 1) × (Listed s names → ⊥))

next_name :
    (s n : List ℕ) (names : List (List ℕ)) (o : Option ℕ)
    → (n ≡ s → ⊥)
    → IsChecked s names o
    → IsChecked s (n ∷ names) o
next_name s n names none ne h = h
next_name s n names (some r) ne (inl (e, l)) = inl (e, inr l)
next_name s n names (some r) ne (inr (e, l)) =
    inr (e, λ k. elim k [ inl same ↦ ne same | inr more ↦ l more ])

one_name :
    (s n : List ℕ) (names : List (List ℕ)) (o rest : Option ℕ)
    → IsCompared n s o
    → IsChecked s names rest
    → IsChecked s (n ∷ names) (elim o [ none ↦ none | some r ↦ if r == 0 then some 0 else rest ])
one_name s n names o rest c h = rw c.returns (elim (Bool-cases (c.code == 0)) [
  | inl equal ↦ let z : c.code ≡ 0 = ground arith in rw equal (inl (refl, inl (c.zero_iff.0 z)))
  | inr other ↦ rw other (
      next_name s n names rest (λ e. let z : c.code ≡ 0 = c.zero_iff.1 e in absurd (ground arith))
        h)
])

-- check_mod of a string returns 0 if it is the name of a module, and -1 otherwise.
pub check_mod-IsChecked :
    (fuel name : ℕ) (modules : List ℕ) (names : List (List ℕ)) (s : List ℕ) (m : Mem)
    → Named fuel m modules names
    → IsString m name s
    → IsChecked s names (check_mod fuel modules name m)
unfolding check_mod
check_mod-IsChecked fuel name [] [] s m h string = inr (refl, λ k. k)
check_mod-IsChecked fuel name [] (n ∷ names) s m h string = absurd h
check_mod-IsChecked fuel name (a ∷ modules) [] s m h string = absurd h
check_mod-IsChecked fuel name (a ∷ modules) (n ∷ names) s m (here, short, rest) string =
    one_name s n names (my_strcmp fuel a name m) (check_mod fuel modules name m)
      (my_strcmp-IsCompared fuel a name m n s here string short)
      (check_mod-IsChecked fuel name modules names s m rest string)
