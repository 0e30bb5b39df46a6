-- ===== src/Stdlib/Strings/Laws.antt =====
-- strlen, my_strcmp and strcpy on strings that stand in memory.
use mathlib.Core.Logic.{◌↔◌}
use aos_kernel.Base.{
  ℕ, zero, suc, ◌+◌, ◌-◌, ◌≤◌, ◌<◌, ◌≡◌, ◌≢◌, refl, sym, ap, ap₂, fun_ext, inl, inr, Bool-cases,
  false, ◌∙◌, ◌⊎◌, Option, some, List, [], ◌∷◌, ◌&&◌, arith, length, get_or, ◌==◌, ltb, leb,
  if◌then◌else◌,
}
use aos_kernel.Memory.{Mem, store}
use aos_kernel.Memory.Text.{IsString, IsString-ext}
use aos_kernel.Stdlib.Strings.{strlen_loop, strlen, strcmp_loop, my_strcmp, strcpy_loop, strcpy}

strlen_loop_at :
    (fuel str i a : ℕ) (m : Mem) (s : List ℕ)
    → a ≡ str + i
    → IsString m a s
    → length s < fuel
    → strlen_loop fuel str i m ≡ some (i + length s)
unfolding strlen_loop
strlen_loop_at zero str i a m s p h f = absurd (omega arith)
strlen_loop_at (suc fuel) str i a m [] p h f = ground (arith, ap m p)
strlen_loop_at (suc fuel) str i a m (c ∷ s) p (e, ne, h) f =
    ground
      (arith, ap m p, strlen_loop_at fuel str (i + 1) (a + 1) m s (omega arith) h (omega arith))

-- On a string strlen returns its length and one more for the terminator.
pub strlen-length :
    (fuel str : ℕ) (m : Mem) (s : List ℕ)
    → IsString m str s
    → length s < fuel
    → strlen fuel str m ≡ some (length s + 1)
unfolding strlen
strlen-length fuel str m s h f = ground (arith, strlen_loop_at fuel str 0 str m s (omega arith) h f)

-- What my_strcmp returns for `s` and `t`.
pub record IsCompared (s t : List ℕ) (result : Option ℕ) : Type 0 where
  pub code : ℕ
  pub returns : result ≡ some code
  pub binary : code ≤ 1
  pub zero_iff : (code ≡ 0) ↔ (s ≡ t)

strcmp_loop-IsCompared :
    (fuel p q i a b : ℕ) (m : Mem) (s t : List ℕ)
    → a ≡ p + i
    → b ≡ q + i
    → IsString m a s
    → IsString m b t
    → length s < fuel
    → IsCompared s t (strcmp_loop fuel p q i m)
unfolding strcmp_loop
strcmp_loop-IsCompared zero p q i a b m s t pa qb h k f = absurd (omega arith)
strcmp_loop-IsCompared (suc fuel) p q i a b m [] [] pa qb h k f = record {
  code = 0;
  returns = ground (arith, ap m pa, ap m qb);
  binary = omega arith;
  zero_iff = ((λ _. refl), (λ _. refl));
}
strcmp_loop-IsCompared (suc fuel) p q i a b m [] (d ∷ t) pa qb h (e, ne, k) f = record {
  code = 1;
  returns = ground (arith, ap m pa, ap m qb);
  binary = omega arith;
  zero_iff = ((λ x. absurd (omega arith)), (λ x. cc));
}
strcmp_loop-IsCompared (suc fuel) p q i a b m (c ∷ s) [] pa qb (e, ne, h) k f = record {
  code = 1;
  returns = ground (arith, ap m pa, ap m qb);
  binary = omega arith;
  zero_iff = ((λ x. absurd (omega arith)), (λ x. cc));
}
strcmp_loop-IsCompared (suc fuel) p q i a b m (c ∷ s) (d ∷ t) pa qb (e, ne, h) (e', ne', k) f =
    elim (Bool-cases (c == d)) [
      | inl same ↦
          let rest =
            strcmp_loop-IsCompared fuel p q (i + 1) (a + 1) (b + 1) m s t (omega arith)
              (omega arith) h k (omega arith) in
          let e2 : c ≡ d = ground arith in
          record {
            code = rest.code;
            returns = ground (arith, ap m pa, ap m qb, rest.returns);
            binary = rest.binary;
            zero_iff = ((λ z. ap₂ ◌∷◌ e2 (rest.zero_iff.0 z)), (λ z. rest.zero_iff.1 (cc)));
          }
      | inr differ ↦
          let e2 : c ≢ d = ground arith in
          record {
            code = 1;
            returns = ground (arith, ap m pa, ap m qb);
            binary = omega arith;
            zero_iff = ((λ z. absurd (omega arith)), (λ z. absurd (e2 (cc))));
          }
    ]

-- my_strcmp of two strings returns 0 exactly when they are equal, and 1 otherwise.
pub my_strcmp-IsCompared :
    (fuel p q : ℕ) (m : Mem) (s t : List ℕ)
    → IsString m p s
    → IsString m q t
    → length s < fuel
    → IsCompared s t (my_strcmp fuel p q m)
unfolding my_strcmp
my_strcmp-IsCompared fuel p q m s t h k f =
    strcmp_loop-IsCompared fuel p q 0 p q m s t (omega arith) (omega arith) h k f

-- What strcpy leaves at each address, for a string `s` copied to `buf`.
abbrev pub copied : List ℕ → ℕ → Mem → Mem
copied s buf m x =
    if leb buf x && ltb x (buf + length s)
    then get_or s (x - buf) 0
    else if x == (buf + length s + 1)
    then 0
    else m x

-- The copy of the first byte and of the others is the copy of the whole.
copied-cons :
    (c : ℕ) (s : List ℕ) (buf : ℕ) (m : Mem) (x : ℕ)
    → copied s (buf + 1) (store m buf c) x ≡ copied (c ∷ s) buf m x
copied-cons c s buf m x = elim (Bool-cases (x == buf)) [
  | inl here ↦
      let e : x ≡ buf = ground arith in let z : x - buf ≡ 0 = omega arith in rw z (ground arith)
  | inr other ↦ elim (Bool-cases (leb buf x)) [
    | inl above ↦ let z : x - buf ≡ suc (x - (buf + 1)) = ground arith in rw z (ground arith)
    | inr below ↦ ground arith
  ]
]

strcpy_loop-copied :
    (fuel buf str i a d : ℕ) (m : Mem) (s : List ℕ)
    → a ≡ str + i
    → d ≡ buf + i
    → IsString m a s
    → (d + length s ≤ a) ⊎ (a + length s < d)
    → length s < fuel
    → strcpy_loop fuel buf str i m ≡ some (copied s d m)
unfolding strcpy_loop
strcpy_loop-copied zero buf str i a d m s p q h apart f = absurd (omega arith)
strcpy_loop-copied (suc fuel) buf str i a d m [] p q h apart f =
    let e : m (str + i) ≡ 0 = ap m (sym p) ∙ h in rw e (ap some (fun_ext λ x. ground arith))
strcpy_loop-copied (suc fuel) buf str i a d m (c ∷ s) p q (e, ne, h) apart f =
    let byte : m (str + i) ≡ c = ap m (sym p) ∙ e in
    let going : (c == 0) ≡ false = ground arith in
    let next = store m (buf + i) c in
    let kept = IsString-ext m next (a + 1) s (λ x l u. ground arith) h in
    rw (byte, going)
      (strcpy_loop-copied fuel buf str (i + 1) (a + 1) (d + 1) next s (omega arith) (omega arith)
          kept (ground arith) (omega arith)
        ∙ ap some (
            fun_ext
              λ x. ap (λ b. copied s (d + 1) (store m b c) x) (sym q) ∙ copied-cons c s d m x))

-- strcpy of a string to a buffer that does not overlap it copies the bytes of the string, leaves
-- the byte behind them as it was, and puts the terminator one place further.
pub strcpy-copied :
    (fuel buf str : ℕ) (m : Mem) (s : List ℕ)
    → IsString m str s
    → (buf + length s ≤ str) ⊎ (str + length s < buf)
    → length s < fuel
    → strcpy fuel buf str m ≡ some (copied s buf m)
unfolding strcpy
strcpy-copied fuel buf str m s h apart f =
    strcpy_loop-copied fuel buf str 0 str buf m s (omega arith) (omega arith) h apart f
