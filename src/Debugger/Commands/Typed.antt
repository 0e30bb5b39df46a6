-- ===== src/Debugger/Commands/Typed.antt =====
-- One round of debug_loop: from the typed line to the command that runs.
use aos_kernel.Base.{
  ℕ, suc, ◌+◌, ◌≤◌, ◌<◌, ◌≡◌, ◌≢◌, refl, ap, subst, ◌∙◌, ◌⊎◌, inl, inr, Bool, true, false,
  Bool-cases, Option, none, some, List, [], ◌∷◌, ◌++◌, arith, length, ◌==◌, leb, ltb,
}
use aos_kernel.Memory.{Mem}
use aos_kernel.Memory.Text.{IsString, IsText, IsString-ext}
use aos_kernel.Stdlib.Strings.Words.{is_sep, starts, zeroed, words-starts}
use aos_kernel.Stdlib.Strings.Pieces.{pieces, prefix, StringsAt, zeroed-StringsAt}
use aos_kernel.Debugger.Commands.{
  buf_len, clear_buf, overruns, line, read_line, Literals, overrun, perform, run_line, debug_round,
}
use aos_kernel.Debugger.Commands.Line.{edited, unwind, AllNot, IsRead, read_line-edited}
use aos_kernel.Debugger.Commands.Dispatch.{
  print_text, stack_text, string_text, continue_text, meaning, AllSet, IsLoaded, command-meaning,
}

-- A literal that does not reach into the buffer.
abbrev pub Apart : ℕ → ℕ → Type 0
Apart buf p = (p + 9 ≤ buf) ⊎ (buf + buf_len ≤ p)

pub record IsApart (buf : ℕ) (l : Literals) : Type 0 where
  pub print_apart : Apart buf l.print
  pub stack_apart : Apart buf l.stack
  pub string_apart : Apart buf l.string
  pub continue_apart : Apart buf l.continue_

-- Two memories that agree outside of the buffer.
abbrev pub Agree : ℕ → Mem → Mem → Type 0
Agree buf m' m = (x : ℕ) → (x < buf) ⊎ (buf + buf_len ≤ x) → m' x ≡ m x

IsString-Agree :
    (buf : ℕ) (m m' : Mem) (p : ℕ) (s : List ℕ)
    → Agree buf m' m
    → Apart buf p
    → length s < 9
    → IsString m p s
    → IsString m' p s
IsString-Agree buf m m' p s same apart short h =
    IsString-ext m m' p s (λ x lo hi. same x (ground arith)) h

IsLoaded-Agree :
    (buf : ℕ) (m m' : Mem) (l : Literals)
    → Agree buf m' m
    → IsApart buf l
    → IsLoaded m l
    → IsLoaded m' l
IsLoaded-Agree buf m m' l same a i = record {
  print_at = IsString-Agree buf m m' l.print print_text same a.print_apart (omega arith) i.print_at;
  stack_at = IsString-Agree buf m m' l.stack stack_text same a.stack_apart (omega arith) i.stack_at;
  string_at =
      IsString-Agree buf m m' l.string string_text same a.string_apart (omega arith) i.string_at;
  continue_at =
      IsString-Agree buf m m' l.continue_ continue_text same a.continue_apart (omega arith)
        i.continue_at;
}

starts-AllSet : (a : ℕ) (s : List ℕ) → AllSet (starts a s)
starts-AllSet a [] = tt
starts-AllSet a (c ∷ s) = elim (Bool-cases (is_sep c)) [
  | inl sep ↦ rw sep ((λ e. omega arith), starts-AllSet (a + 1) s)
  | inr other ↦ rw other (starts-AllSet (a + 1) s)
]

length-prefix :
    (c : ℕ) (k : ℕ) (ws : List (List ℕ)) → length ws ≡ suc k → length (prefix c ws) ≡ suc k
length-prefix c k [] h = absurd (omega arith)
length-prefix c k (w ∷ ws) h = h

length-pieces : (a : ℕ) (s : List ℕ) → length (pieces s) ≡ suc (length (starts a s))
length-pieces a [] = refl
length-pieces a (c ∷ s) = elim (Bool-cases (is_sep c)) [
  | inl sep ↦ rw sep (ap suc (length-pieces (a + 1) s))
  | inr other ↦
      rw other (length-prefix c (length (starts (a + 1) s)) (pieces s) (length-pieces (a + 1) s))
]

-- A line that the editor accepts leaves room for its terminator.
abbrev Fits : Option (List ℕ) → Type 0
Fits none = Unit {0}
Fits (some t) = length t < buf_len

edited-Fits : (t s : List ℕ) → Fits (edited t s)
edited-Fits t [] = elim (Bool-cases (ltb (length t) buf_len)) [
  | inl fits ↦ rw fits (ground arith)
  | inr full ↦ rw full tt
]
edited-Fits [] (c ∷ s) = elim (Bool-cases (c == 0x08)) [
  | inl back ↦ rw back tt
  | inr other ↦ rw other (edited-Fits (c ∷ []) s)
]
edited-Fits (d ∷ t) (c ∷ s) = elim (Bool-cases (c == 0x08)) [
  | inl back ↦ rw back (edited-Fits t s)
  | inr other ↦ elim (Bool-cases (ltb (suc (length t)) buf_len)) [
    | inl fits ↦ rw (other, fits) (edited-Fits (c ∷ d ∷ t) s)
    | inr full ↦ rw (other, full) tt
  ]
]

length-unwind : (t s : List ℕ) → length (unwind t s) ≡ length t + length s
length-unwind [] s = omega arith
length-unwind (c ∷ t) s = omega (arith, length-unwind t (c ∷ s))

zeroed-Agree :
    (buf n : ℕ) (m m' : Mem) → n < buf_len → Agree buf m' m → Agree buf (zeroed n buf m') m
zeroed-Agree buf n m m' l same x h = let e = same x h in ground arith

module _ (fuel : ℕ) (literals : Literals) (junk : ℕ → ℕ) (mapped : ℕ → Bool) (dummy buf : ℕ) where
  -- The string in the buffer is split, and the command of its words is run.
  run_line-perform :
      (m m' : Mem) (t rest : List ℕ)
      → IsString m' buf t
      → length t < buf_len
      → Agree buf m' m
      → length (pieces t) ≤ 5
      → buf ≢ 0
      → IsApart buf literals
      → IsLoaded m literals
      → buf_len ≤ fuel
      → let out = buf ∷ starts buf t in
        let after = zeroed (length t) buf m' in
        run_line fuel literals junk mapped dummy buf m' rest
        ≡ perform fuel literals junk mapped dummy (meaning out (pieces t)) after rest
  unfolding run_line
  run_line-perform m m' t rest h short same few nz apart loaded enough =
      let out = buf ∷ starts buf t in
      let after = zeroed (length t) buf m' in
      let fits : leb (length out) 5 ≡ true = ground (arith, length-pieces buf t) in
      let loaded' =
        IsLoaded-Agree buf m after literals (zeroed-Agree buf (length t) m m' short same) apart
          loaded in
      rw
        (
          run_line,
          words-starts fuel buf m' t h (omega arith),
          fits,
          command-meaning fuel literals after out (pieces t) loaded' (nz, starts-AllSet buf t)
              (zeroed-StringsAt buf m' t h) (omega arith),
        )
        refl

  debug_round-line :
      (m m' : Mem) (input rest : List ℕ)
      → read_line buf 0 (clear_buf buf m) input ≡ line m' rest
      → debug_round fuel literals junk mapped dummy buf m input
        ≡ run_line fuel literals junk mapped dummy buf m' rest
  unfolding debug_round
  debug_round-line m m' input rest e = rw (debug_round, e) refl

  -- One round of the debugger on a typed line of at most five words: the backspaces are carried
  -- out, and the command that the words of the remaining text mean runs, with those words behind
  -- the pointers that it gets. Nothing outside of the buffer has changed before that. (The word
  -- behind `print` is an address if it begins with `0`, whatever follows.)
  pub debug_round-perform :
      (m : Mem) (s t rest : List ℕ)
      → IsText s
      → AllNot 0x0a s
      → edited [] s ≡ some t
      → length (pieces (unwind t [])) ≤ 5
      → buf ≢ 0
      → IsApart buf literals
      → IsLoaded m literals
      → buf_len ≤ fuel
      → (out : List ℕ) × (after : Mem) × (debug_round fuel literals junk mapped dummy buf m
            (s ++ (0x0a ∷ rest))
          ≡ perform fuel literals junk mapped dummy (meaning out (pieces (unwind t []))) after rest)
        × StringsAt after out (pieces (unwind t []))
        × Agree buf after m
  debug_round-perform m s t rest text lines e few nz apart loaded enough =
      let r : IsRead buf m rest (some t) (read_line buf 0 (clear_buf buf m) (s ++ (0x0a ∷ rest))) =
        subst (λ o. IsRead buf m rest o (read_line buf 0 (clear_buf buf m) (s ++ (0x0a ∷ rest)))) e
          (read_line-edited buf m s rest text lines) in
      let (m', read, h, same) = r in
      let fits : length t < buf_len = subst Fits e (edited-Fits [] s) in
      let short : length (unwind t []) < buf_len = omega (arith, length-unwind t []) in
      (
        buf ∷ starts buf (unwind t []),
        zeroed (length (unwind t [])) buf m',
        debug_round-line m m' (s ++ (0x0a ∷ rest)) rest read
            ∙ run_line-perform m m' (unwind t []) rest h short same few nz apart loaded enough,
        zeroed-StringsAt buf m' (unwind t []) h,
        zeroed-Agree buf (length (unwind t [])) m m' short same,
      )

  run_line-many :
      (m' : Mem) (t rest : List ℕ)
      → IsString m' buf t
      → 5 < length (pieces t)
      → length t < fuel
      → run_line fuel literals junk mapped dummy buf m' rest ≡ overrun
  unfolding run_line
  run_line-many m' t rest h many enough =
      let full : leb (length (buf ∷ starts buf t)) 5 ≡ false =
        ground (arith, length-pieces buf t) in
      rw (run_line, words-starts fuel buf m' t h enough, full) refl

  -- A line that leaves the buffer, or has more than five words, makes the round store outside of
  -- its arrays.
  pub debug_round-overrun :
      (m : Mem) (s rest : List ℕ)
      → IsText s
      → AllNot 0x0a s
      → (edited [] s ≡ none)
        ⊎ ((t : List ℕ) × (edited [] s ≡ some t) × (5 < length (pieces (unwind t []))))
      → buf_len ≤ fuel
      → debug_round fuel literals junk mapped dummy buf m (s ++ (0x0a ∷ rest)) ≡ overrun
  unfolding debug_round
  debug_round-overrun m s rest text lines (inl e) enough =
      let r : read_line buf 0 (clear_buf buf m) (s ++ (0x0a ∷ rest)) ≡ overruns =
        subst (λ o. IsRead buf m rest o (read_line buf 0 (clear_buf buf m) (s ++ (0x0a ∷ rest)))) e
          (read_line-edited buf m s rest text lines) in
      rw (debug_round, r) refl
  debug_round-overrun m s rest text lines (inr (t, e, many)) enough =
      let r : IsRead buf m rest (some t) (read_line buf 0 (clear_buf buf m) (s ++ (0x0a ∷ rest))) =
        subst (λ o. IsRead buf m rest o (read_line buf 0 (clear_buf buf m) (s ++ (0x0a ∷ rest)))) e
          (read_line-edited buf m s rest text lines) in
      let (m', read, h, same) = r in
      let fits : length t < buf_len = subst Fits e (edited-Fits [] s) in
      debug_round-line m m' (s ++ (0x0a ∷ rest)) rest read
      ∙ run_line-many m' (unwind t []) rest h many (omega (arith, length-unwind t []))
