-- ===== src/Debugger/Commands/Line.antt =====
-- The line that the debugger reads, against an editor of text.
use aos_kernel.Base.{
  ℕ, suc, ◌+◌, ◌-◌, ◌≤◌, ◌<◌, ◌≡◌, ◌≢◌, refl, subst, ◌⊎◌, inl, inr, false, Bool-cases, Option, none,
  some, List, [], ◌∷◌, ◌++◌, arith, length, ltb, ◌==◌, if◌then◌else◌,
}
use aos_kernel.Memory.{Mem, store}
use aos_kernel.Memory.Text.{IsString, IsText}
use aos_kernel.Debugger.Commands.{buf_len, clear_buf, Reading, overruns, line, read_line}

-- The text while `s` is typed, last character first: a backspace takes back the last character.
-- `none` where there is none, or no room.
abbrev pub edited : List ℕ → List ℕ → Option (List ℕ)
edited t [] = if ltb (length t) buf_len then some t else none
edited [] (c ∷ s) = if c == 0x08 then none else edited (c ∷ []) s
edited (d ∷ t) (c ∷ s) =
    let back = edited t s in
    let more = edited (c ∷ d ∷ t) s in
    if c == 0x08 then back else if ltb (suc (length t)) buf_len then more else none

-- The characters of `t`, turned round, before `s`.
abbrev pub unwind : List ℕ → List ℕ → List ℕ
unwind [] s = s
unwind (c ∷ t) s = unwind t (c ∷ s)

abbrev pub AllNot : ℕ → List ℕ → Type 0
AllNot n [] = Unit {0}
AllNot n (c ∷ s) = (c ≢ n) × AllNot n s

-- What read_line does, by what the editor says.
abbrev pub IsRead : ℕ → Mem → List ℕ → Option (List ℕ) → Reading → Type 0
IsRead buf m rest none r = r ≡ overruns
IsRead buf m rest (some t) r =
    (m' : Mem) × (r ≡ line m' rest)
    × IsString m' buf (unwind t [])
    × ((x : ℕ) → (x < buf) ⊎ (buf + buf_len ≤ x) → m' x ≡ m x)

-- The buffer while the line is read.
abbrev Filled : Mem → ℕ → List ℕ → Type 0
Filled m buf [] = Unit {0}
Filled m buf (c ∷ t) = (m (buf + length t) ≡ c) × (c ≢ 0) × Filled m buf t

Filled-store :
    (m : Mem) (buf c k : ℕ) (t : List ℕ)
    → length t ≤ k
    → Filled m buf t
    → Filled (store m (buf + k) c) buf t
Filled-store m buf c k [] l f = tt
Filled-store m buf c k (d ∷ t) l (e, ne, f) =
    (ground arith, ne, Filled-store m buf c k t (omega arith) f)

Filled-IsString :
    (m : Mem) (buf : ℕ) (t s : List ℕ)
    → Filled m buf t
    → IsString m (buf + length t) s
    → IsString m buf (unwind t s)
Filled-IsString m buf [] s f h = subst (λ a. IsString m a s) (omega arith) h
Filled-IsString m buf (c ∷ t) s (e, ne, f) h =
    Filled-IsString m buf t (c ∷ s) f (e, ne, subst (λ a. IsString m a s) (omega arith) h)

module _ (buf : ℕ) (m : Mem) (rest : List ℕ) where
  -- The invariant of the loop.
  record IsReading (t : List ℕ) (m1 : Mem) : Type 0 where
    filled : Filled m1 buf t
    room : length t ≤ buf_len
    outside : (x : ℕ) → (x < buf) ⊎ (buf + buf_len ≤ x) → m1 x ≡ m x

  typed-IsReading :
      (c : ℕ) (t : List ℕ) (m1 : Mem)
      → c ≢ 0
      → length t < buf_len
      → IsReading t m1
      → IsReading (c ∷ t) (store m1 (buf + length t) c)
  typed-IsReading c t m1 ne l i = record {
    filled = (ground arith, ne, Filled-store m1 buf c (length t) t (omega arith) i.filled);
    room = omega arith;
    outside = λ x h. let o = i.outside x h in ground arith;
  }

  typed-IsReading_end :
      (t : List ℕ) (m1 : Mem)
      → length t < buf_len
      → IsReading t m1
      → IsString (store m1 (buf + length t) 0) buf (unwind t [])
        × ((x : ℕ) → (x < buf) ⊎ (buf + buf_len ≤ x) → store m1 (buf + length t) 0 x ≡ m x)
  typed-IsReading_end t m1 l i = (
    Filled-IsString (store m1 (buf + length t) 0) buf t []
        (Filled-store m1 buf 0 (length t) t (omega arith) i.filled) (ground arith),
    λ x h. let o = i.outside x h in ground arith,
  )

  taken_back : (d : ℕ) (t : List ℕ) (m1 : Mem) → IsReading (d ∷ t) m1 → IsReading t m1
  taken_back d t m1 i = record {
    filled = i.filled.2;
    room = let l = i.room in omega arith;
    outside = i.outside;
  }

  read_line-IsReading :
      (s t : List ℕ) (m1 : Mem) (i : ℕ)
      → i ≡ length t
      → IsText s
      → AllNot 0x0a s
      → IsReading t m1
      → IsRead buf m rest (edited t s) (read_line buf i m1 (s ++ (0x0a ∷ rest)))
  unfolding read_line
  read_line-IsReading [] t m1 i e text lines r = elim (Bool-cases (ltb (length t) buf_len)) [
    | inl fits ↦
        let end = typed-IsReading_end t m1 (ground arith) r in
        rw (e, fits) (store m1 (buf + length t) 0, refl, end.0, end.1)
    | inr full ↦ rw (e, full) refl
  ]
  read_line-IsReading (c ∷ s) [] m1 i e (nz, text) (nl, lines) r =
      let same : (c == 0x0a) ≡ false = ground arith in
      elim (Bool-cases (c == 0x08)) [
        | inl back ↦ rw (same, back, e) refl
        | inr other ↦
            rw (same, other, e)
              (read_line-IsReading s (c ∷ []) (store m1 (buf + 0) c) 1 refl text lines
                (typed-IsReading c [] m1 nz (omega arith) r))
      ]
  read_line-IsReading (c ∷ s) (d ∷ t) m1 i e (nz, text) (nl, lines) r =
      let same : (c == 0x0a) ≡ false = ground arith in
      elim (Bool-cases (c == 0x08)) [
        | inl back ↦
            let pos : (suc (length t) == 0) ≡ false = ground arith in
            rw (same, back, e, pos)
              (read_line-IsReading s t m1 (suc (length t) - 1) (omega arith) text lines
                (taken_back d t m1 r))
        | inr other ↦ elim (Bool-cases (ltb (suc (length t)) buf_len)) [
          | inl fits ↦
              rw (same, other, e, fits)
                (read_line-IsReading s (c ∷ d ∷ t) (store m1 (buf + suc (length t)) c)
                  (suc (length t) + 1) (omega arith) text lines
                  (typed-IsReading c (d ∷ t) m1 nz (ground arith) r))
          | inr full ↦ rw (same, other, e, full) refl
        ]
      ]

-- A typed line without a line feed or zero inside is read as an editor reads it: with the
-- backspaces carried out the text stands in the buffer as a string, and no byte outside of the
-- buffer changes. Where the editor has nothing to take back, comes to more than 70 characters, or
-- ends at 70, the loop stores outside of the buffer.
pub read_line-edited :
    (buf : ℕ) (m : Mem) (s rest : List ℕ)
    → IsText s
    → AllNot 0x0a s
    → IsRead buf m rest (edited [] s) (read_line buf 0 (clear_buf buf m) (s ++ (0x0a ∷ rest)))
read_line-edited buf m s rest text lines =
    read_line-IsReading buf m rest s [] (clear_buf buf m) 0 refl text lines
      (record { filled = tt; room = omega arith; outside = λ x h. ground arith })
