-- ===== src/Shell/Line.antt =====
-- What getline reads.
use aos_kernel.Base.{
  ℕ, zero, suc, ◌+◌, ◌≤◌, ◌<◌, ◌≡◌, ◌≢◌, refl, ◌∙◌, ◌⊎◌, inl, false, true, List, [], ◌∷◌, ◌++◌,
  arith, length, ◌==◌, if◌then◌else◌,
}
use aos_kernel.Memory.{Mem, store}
use aos_kernel.Memory.Text.{IsString, IsText}
use aos_kernel.Interrupts.Syscalls.Read.{syscall_read-one}
use aos_kernel.Shell.{returned, unreturned, getline_loop}

-- No line feed inside.
abbrev pub OneLine : List ℕ → Type 0
OneLine [] = Unit {0}
OneLine (c ∷ s) = (c ≢ 0x0a) × OneLine s

-- The line at `a`, and the rest of memory as before.
pub record IsGot (curr a : ℕ) (m m' : Mem) (s : List ℕ) : Type 0 where
  pub line : IsString m' a (s ++ (0x0a ∷ []))
  pub others : (x : ℕ) → x ≢ curr → (x < a) ⊎ (a + length s + 2 ≤ x) → m' x ≡ m x

getline_loop-read :
    (curr p left i c : ℕ) (input : List ℕ) (m : Mem)
    → let m'' = store (store m curr c) (p + i) c in
      getline_loop curr p (suc left) i (c ∷ input) m ≡ (
        if c == 0x0a
        then returned (store m'' (p + (i + 1)) 0) input
        else getline_loop curr p left (i + 1) input m'')
unfolding getline_loop
getline_loop-read curr p left i c input m =
    let e : (curr == curr) ≡ true = ground arith in
    rw (getline_loop, syscall_read-one curr c input m, e) refl

getline_loop_at :
    (curr p left i a : ℕ) (m : Mem) (s rest : List ℕ)
    → a ≡ p + i
    → IsText s
    → OneLine s
    → length s < left
    → (curr < a) ⊎ (a + length s + 2 ≤ curr)
    → (m' : Mem) × (getline_loop curr p left i (s ++ (0x0a ∷ rest)) m ≡ returned m' rest)
      × IsGot curr a m m' s
getline_loop_at curr p zero i a m s rest e t o l apart = absurd (omega arith)
getline_loop_at curr p (suc left) i a m [] rest e t o l apart =
    let m' = store (store (store m curr 0x0a) (p + i) 0x0a) (p + (i + 1)) 0 in
    (
      m',
      getline_loop-read curr p left i 0x0a rest m,
      record {
        line = (ground arith, (λ z. ground arith), ground arith);
        others = λ x ne out. ground arith;
      },
    )
getline_loop_at curr p (suc left) i a m (c ∷ s) rest e (nz, t) (nl, o) l apart =
    let m1 : Mem = store (store m curr c) (p + i) c in
    let going : (c == 0x0a) ≡ false = ground arith in
    let (m', runs, got) =
      getline_loop_at curr p left (i + 1) (a + 1) m1 s rest (omega arith) t o (omega arith)
        (ground arith) in
    let here : m' a ≡ c = got.others a (λ z. ground arith) (inl (omega arith)) ∙ (ground arith) in
    (
      m',
      getline_loop-read curr p left i c (s ++ (0x0a ∷ rest)) m ∙ rw going runs,
      record {
        line = (here, nz, got.line);
        others = λ x ne out. got.others x ne (ground arith) ∙ (ground arith);
      },
    )

-- getline of a line of up to 253 characters returns, with the line and its line feed as a string
-- at `p`; it has read up to the line feed, and changed nothing but the line and `curr`. Every
-- character of the line is kept, backspaces too.
pub getline_loop-line :
    (curr p : ℕ) (m : Mem) (s rest : List ℕ)
    → IsText s
    → OneLine s
    → length s < 254
    → (curr < p) ⊎ (p + 255 ≤ curr)
    → (m' : Mem) × (getline_loop curr p 254 0 (s ++ (0x0a ∷ rest)) m ≡ returned m' rest)
      × IsGot curr p m m' s
getline_loop-line curr p m s rest t o l apart =
    getline_loop_at curr p 254 0 p m s rest (omega arith) t o l (ground arith)

unreturned_at :
    (curr p left i : ℕ) (m : Mem) (s rest : List ℕ)
    → OneLine s
    → length s ≡ left
    → (m' : Mem) × (getline_loop curr p left i (s ++ rest) m ≡ unreturned m' rest)
unfolding getline_loop
unreturned_at curr p zero i m [] rest o l = (store m (p + 254) 0, refl)
unreturned_at curr p zero i m (c ∷ s) rest o l = absurd (omega arith)
unreturned_at curr p (suc left) i m [] rest o l = absurd (omega arith)
unreturned_at curr p (suc left) i m (c ∷ s) rest (nl, o) l =
    let m1 : Mem = store (store m curr c) (p + i) c in
    let going : (c == 0x0a) ≡ false = ground arith in
    let (m', runs) = unreturned_at curr p left (i + 1) m1 s rest o (omega arith) in
    (m', getline_loop-read curr p left i c (s ++ rest) m ∙ rw going runs)

-- After 254 characters without a line feed getline comes to its end without a `return`, and
-- leaves the rest of the line unread.
pub getline_loop-unreturned :
    (curr p : ℕ) (m : Mem) (s rest : List ℕ)
    → OneLine s
    → length s ≡ 254
    → (m' : Mem) × (getline_loop curr p 254 0 (s ++ rest) m ≡ unreturned m' rest)
getline_loop-unreturned curr p m s rest o l = unreturned_at curr p 254 0 m s rest o l
