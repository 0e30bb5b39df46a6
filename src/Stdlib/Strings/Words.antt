-- ===== src/Stdlib/Strings/Words.antt =====
-- words: splitting a line in place.
use aos_kernel.Base.{
  ℕ, zero, suc, ◌+◌, ◌≤◌, ◌<◌, ◌≡◌, refl, ap, ap₂, fun_ext, inl, inr, Bool, some, List, [], ◌∷◌,
  ◌||◌, ◌&&◌, Bool-cases, arith, length, ◌==◌, ltb, leb, if◌then◌else◌,
}
use aos_kernel.Memory.{Mem, store}
use aos_kernel.Memory.Text.{IsString, IsString-ext}
use aos_kernel.Stdlib.Strings.{words_loop, words}
use aos_kernel.Stdlib.Strings.Laws.{strlen-length}

-- A space or a line feed.
abbrev pub is_sep : ℕ → Bool
is_sep c = c == 0x20 || c == 0x0a

-- The addresses behind the separators of a string that stands at `a`.
abbrev pub starts : ℕ → List ℕ → List ℕ
starts a [] = []
starts a (c ∷ s) = if is_sep c then (a + 1) ∷ starts (a + 1) s else starts (a + 1) s

-- The memory with the separators among the `n` bytes from `a` on zeroed.
abbrev pub zeroed : ℕ → ℕ → Mem → Mem
zeroed n a m x = if leb a x && ltb x (a + n) && is_sep (m x) then 0 else m x

-- What one round does to the memory.
abbrev cut : ℕ → Mem → Mem
cut a m = if is_sep (m a) then store m a 0 else m

zeroed-cut : (n a : ℕ) (m : Mem) (x : ℕ) → zeroed n (a + 1) (cut a m) x ≡ zeroed (suc n) a m x
zeroed-cut n a m x = elim (Bool-cases (x == a)) [
  | inl here ↦ let e : x ≡ a = ground arith in rw e (ground arith)
  | inr other ↦ let f : cut a m x ≡ m x = ground arith in rw f (ground arith)
]

cut_above : (a : ℕ) (m : Mem) (x : ℕ) → a + 1 ≤ x → cut a m x ≡ m x
cut_above a m x h = ground arith

words_loop-starts :
    (left str i a : ℕ) (m : Mem) (s : List ℕ)
    → a ≡ str + i
    → IsString m a s
    → left ≡ length s + 1
    → words_loop left str i m ≡ (starts a s, zeroed (length s) a m)
unfolding words_loop
words_loop-starts zero str i a m s p h l = absurd (omega arith)
words_loop-starts (suc left) str i a m [] p h l =
    let none_left : left ≡ 0 = omega arith in
    rw (none_left, ← p, h) (ap (λ z. ([], z)) (fun_ext λ x. ground arith))
words_loop-starts (suc left) str i a m (c ∷ s) p (e, ne, h) l =
    let next : str + (i + 1) ≡ a + 1 = omega arith in
    let kept = IsString-ext m (cut a m) (a + 1) s (λ x lo hi. cut_above a m x lo) h in
    let rest =
      words_loop-starts left str (i + 1) (a + 1) (cut a m) s (omega arith) kept (omega arith) in
    rw (← p, next, rest)
      (ap₂ (λ b z. (if is_sep b then (a + 1) ∷ starts (a + 1) s else starts (a + 1) s, z)) e
        (fun_ext (zeroed-cut (length s) a m)))

-- words of a string stores the address of the string and then that of the byte behind each
-- space and line feed, in order, and zeroes exactly these separators.
pub words-starts :
    (fuel str : ℕ) (m : Mem) (s : List ℕ)
    → IsString m str s
    → length s < fuel
    → words fuel str m ≡ some (str ∷ starts str s, zeroed (length s) str m)
unfolding words
words-starts fuel str m s h f =
    rw (strlen-length fuel str m s h f, words)
      (ap (λ (r : List ℕ × Mem). some (str ∷ r.0, r.1))
        (words_loop-starts (length s + 1) str 0 str m s (omega arith) h refl))
