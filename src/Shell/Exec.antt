-- ===== src/Shell/Exec.antt =====
-- A typed name and the module that runs.

use aos_kernel.Base.{
  ℕ, suc, ◌+◌, ◌-◌, ◌≤◌, ◌<◌, ◌≡◌, ◌≢◌, refl, ap, ◌∙◌, ◌⊎◌, inl, inr, Option, none, some, List, [],
  ◌∷◌, ◌++◌, arith, length, ◌==◌, if◌then◌else◌, get_or,
}
use aos_kernel.Memory.{Mem, store}
use aos_kernel.Memory.Text.{IsString, IsText, IsString-ext}
use aos_kernel.Stdlib.Strings.Laws.{strlen-length, copied, strcpy-copied}
use aos_kernel.Stdlib.Malloc.{Arena, malloc}
use aos_kernel.Print.Digits.{◌>>=◌}
use aos_kernel.Programs.{check_mod}
use aos_kernel.Programs.Names.{Named, Listed, IsChecked, check_mod-IsChecked}
use aos_kernel.Shell.{
  copy_len, clear_copy, exec, Round, getline, stuck, executes, not_found, strip, run_line,
  shell_round,
}
use aos_kernel.Shell.Line.{OneLine, IsGot, getline_loop-line}

IsString-cut :
    (m : Mem) (a b c : ℕ) (s : List ℕ)
    → b ≡ a + length s
    → IsString m a (s ++ (c ∷ []))
    → IsString (store m b 0) a s
IsString-cut m a b c [] e h = ground arith
IsString-cut m a b c (d ∷ s) e (h, ne, t) =
    (ground arith, ne, IsString-cut m (a + 1) b c s (omega arith) t)

length-line : (s : List ℕ) (c : ℕ) → length (s ++ (c ∷ [])) ≡ suc (length s)
length-line [] c = refl
length-line (d ∷ s) c = ap suc (length-line s c)

-- The line feed is taken off.
strip-line :
    (fuel p : ℕ) (m : Mem) (s : List ℕ)
    → IsString m p (s ++ (0x0a ∷ []))
    → length s + 1 < fuel
    → strip fuel p m ≡ some (store m (p + length s) 0)
unfolding strip
strip-line fuel p m s h enough =
    let n : length (s ++ (0x0a ∷ [])) + 1 - 2 ≡ length s = omega (arith, length-line s 0x0a) in
    rw (strlen-length fuel p m (s ++ (0x0a ∷ [])) h (omega (arith, length-line s 0x0a)), n) refl

IsString-bytes :
    (m : Mem) (a : ℕ) (s : List ℕ)
    → IsText s
    → ((i : ℕ) → i < length s → m (a + i) ≡ get_or s i 0)
    → m (a + length s) ≡ 0
    → IsString m a s
IsString-bytes m a [] t h e = ap m (omega arith) ∙ e
IsString-bytes m a (c ∷ s) (nz, t) h e = (
  ap m (omega arith) ∙ h 0 (omega arith),
  nz,
  IsString-bytes m (a + 1) s t (λ i l. ap m (omega arith) ∙ h (suc i) (omega arith))
      (ap m (omega arith) ∙ e),
)

-- The cleared copy ends the string where strcpy leaves the byte as it was.
copied-IsString :
    (copy : ℕ) (m : Mem) (s : List ℕ)
    → IsText s
    → length s < copy_len
    → IsString (copied s copy (clear_copy copy m)) copy s
copied-IsString copy m s t l =
    IsString-bytes (copied s copy (clear_copy copy m)) copy s t
      (λ i h. let z : copy + i - copy ≡ i = omega arith in rw z (ground arith)) (ground arith)

-- The name is out of the way of the line, `curr` and the copy.
abbrev pub Away : ℕ → ℕ → ℕ → ℕ → ℕ → Type 0
Away curr p copy a n =
    ((curr < a) ⊎ (a + n < curr))
    × ((p + 255 ≤ a) ⊎ (a + n < p))
    × ((copy + copy_len ≤ a) ⊎ (a + n < copy))

abbrev pub AllAway : ℕ → ℕ → ℕ → List ℕ → List (List ℕ) → Type 0
AllAway curr p copy [] names = Unit {0}
AllAway curr p copy (a ∷ modules) [] = Unit {0}
AllAway curr p copy (a ∷ modules) (n ∷ names) =
    Away curr p copy a (length n) × AllAway curr p copy modules names

-- Memories that agree but for the three.
abbrev Agree : ℕ → ℕ → ℕ → Mem → Mem → Type 0
Agree curr p copy m' m =
    (x : ℕ) → x ≢ curr → (x < p) ⊎ (p + 255 ≤ x) → (x < copy) ⊎ (copy + copy_len ≤ x) → m' x ≡ m x

Named-Agree :
    (fuel curr p copy : ℕ) (m m' : Mem) (modules : List ℕ) (names : List (List ℕ))
    → Agree curr p copy m' m
    → AllAway curr p copy modules names
    → Named fuel m modules names
    → Named fuel m' modules names
Named-Agree fuel curr p copy m m' [] [] same away h = tt
Named-Agree fuel curr p copy m m' [] (n ∷ names) same away h = h
Named-Agree fuel curr p copy m m' (a ∷ modules) [] same away h = h
Named-Agree fuel curr p copy m m' (a ∷ modules) (n ∷ names) same (away, more) (here, short, rest) =
    (
      IsString-ext m m' a n (λ x lo hi. same x (λ e. ground arith) (ground arith) (ground arith))
          here,
      short,
      Named-Agree fuel curr p copy m m' modules names same more rest,
    )

-- How the round ends for the name `s`, with the kernel's copy of it.
pub record IsRun (copy : ℕ) (s : List ℕ) (names : List (List ℕ)) (arena : Arena) (rest : List ℕ)
    (r : Round) : Type 0 where
  pub memory : Mem
  pub copied_name : IsString memory copy s
  pub choice :
      (Listed s names × (r ≡ executes memory))
      ⊎ ((Listed s names → ⊥) × (r ≡ not_found arena memory rest))

-- What the round makes of the result of check_mod.
abbrev chosen : Arena → List ℕ → Mem → Option ℕ → Round
chosen arena rest m o = elim (◌>>=◌ {B = ℕ × Mem} o (λ result. some (result, m))) [
  | none ↦ stuck
  | some (result, m') ↦ if result == 0 then executes m' else not_found arena m' rest
]

ended :
    (copy : ℕ) (m : Mem) (s : List ℕ) (names : List (List ℕ)) (arena : Arena) (rest : List ℕ)
    (o : Option ℕ) {r : Round}
    → IsChecked s names o
    → IsString m copy s
    → r ≡ chosen arena rest m o
    → IsRun copy s names arena rest r
ended copy m s names arena rest none h name e = absurd h
ended copy m s names arena rest (some c) (inl (z, listed)) name e = record {
  memory = m;
  copied_name = name;
  choice = inl (listed, e ∙ rw z refl);
}
ended copy m s names arena rest (some c) (inr (z, unlisted)) name e = record {
  memory = m;
  copied_name = name;
  choice = inr (unlisted, e ∙ rw z refl);
}

module _ (fuel curr copy : ℕ) (modules : List ℕ) (names : List (List ℕ)) where
  run_line-IsRun :
      (p : ℕ) (arena : Arena) (m m1 : Mem) (s rest : List ℕ)
      → IsText s
      → length s < 19
      → IsGot curr p m m1 s
      → (copy + copy_len ≤ p) ⊎ (p + 255 ≤ copy)
      → AllAway curr p copy modules names
      → Named fuel m modules names
      → 20 < fuel
      → IsRun copy s names arena rest (run_line fuel copy modules p arena rest m1)
  unfolding run_line exec
  run_line-IsRun p arena m m1 s rest t short got apart away named enough =
      let m2 : Mem = store m1 (p + length s) 0 in
      let stripped = strip-line fuel p m1 s got.line (omega arith) in
      let line : IsString m2 p s = IsString-cut m1 p (p + length s) 0x0a s refl got.line in
      let line' : IsString (clear_copy copy m2) p s =
        IsString-ext m2 (clear_copy copy m2) p s (λ x lo hi. ground arith) line in
      let moved =
        strcpy-copied fuel copy p (clear_copy copy m2) s line' (ground arith) (omega arith) in
      let m3 : Mem = copied s copy (clear_copy copy m2) in
      let name : IsString m3 copy s = copied-IsString copy m2 s t (omega arith) in
      let same : Agree curr p copy m3 m =
        λ x ne out out'. let o = got.others x ne (ground arith) in ground arith in
      let checked =
        check_mod-IsChecked fuel copy modules names s m3
          (Named-Agree fuel curr p copy m m3 modules names same away named) name in
      ended copy m3 s names arena rest (check_mod fuel modules copy m3) checked name
        (rw (run_line, stripped, exec, moved) refl)

  -- A name of at most 18 characters typed at the shell's prompt: the kernel's copy of it is that
  -- name, and it is executed if a module has it; otherwise the shell says so and goes on behind
  -- the line, with the line allocated. (The line is at the address that malloc gives; `curr` and
  -- the copy are outside of it, and the modules' names away from all three.)
  pub shell_round-IsRun :
      (arena : Arena) (m : Mem) (s rest : List ℕ)
      → let (p, arena') = malloc 255 arena in
        IsText s
        → OneLine s
        → length s < 19
        → (curr < p) ⊎ (p + 255 ≤ curr)
        → (copy + copy_len ≤ p) ⊎ (p + 255 ≤ copy)
        → AllAway curr p copy modules names
        → Named fuel m modules names
        → 20 < fuel
        → IsRun copy s names arena' rest
            (shell_round fuel curr copy modules arena (s ++ (0x0a ∷ rest)) m)
  unfolding shell_round getline
  shell_round-IsRun arena m s rest t o short apart apart' away named enough =
      let (p, arena') = malloc 255 arena in
      let (m1, read, got) = getline_loop-line curr p m s rest t o (omega arith) apart in
      let done = run_line-IsRun p arena' m m1 s rest t short got apart' away named enough in
      rw (shell_round, read) done
