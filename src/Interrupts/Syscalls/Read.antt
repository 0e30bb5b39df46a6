-- ===== src/Interrupts/Syscalls/Read.antt =====
-- syscall_read as a line editor with backspaces.
use aos_kernel.Base.{
  ℕ, suc, ◌+◌, ◌-◌, ◌%◌, ◌^◌, ◌≤◌, ◌<◌, ◌≡◌, refl, subst, Bool, true, false, not, Option, none,
  some, List, [], ◌∷◌, arith, length, ltb, ◌==◌, if◌then◌else◌, ltb_of_lt, ==_of_ne, Bool-cases,
  inl, inr,
}
use aos_kernel.Memory.{Mem, store}
use aos_kernel.Interrupts.Syscalls.{read_loop, syscall_read}

-- The editor: `text` is what stands in the line, its last character first. The line ends at `n`
-- characters; with an empty line, a backspace is outside of what it describes (`none`), and so is
-- an input that is too short.
abbrev pub edit : ℕ → List ℕ → List ℕ → Option (List ℕ × List ℕ)
edit n text [] = if ltb (length text) n then none else some (text, [])
edit n [] (c ∷ input) =
    let rest = edit n (c ∷ []) input in
    if not (ltb 0 n) then some ([], c ∷ input) else if c == 0x08 then none else rest
edit n (d ∷ text) (c ∷ input) =
    let back = edit n text input in
    let next = edit n (c ∷ d ∷ text) input in
    if not (ltb (length (d ∷ text)) n)
    then some (d ∷ text, c ∷ input)
    else if c == 0x08
    then back
    else next

-- A line stands in the buffer, its last character first.
abbrev pub Holds : Mem → ℕ → List ℕ → Type 0
Holds m buf [] = Unit {0}
Holds m buf (c ∷ text) = (m (buf + length text) ≡ c) × Holds m buf text

Holds-store :
    (m : Mem) (buf v : ℕ) (text : List ℕ) (i : ℕ)
    → length text ≤ i
    → Holds m buf text
    → Holds (store m (buf + i) v) buf text
Holds-store m buf v [] i h holds = holds
Holds-store m buf v (c ∷ text) i h (e, rest) =
    (ground arith, Holds-store m buf v text i (omega arith) rest)

-- What a read leaves that ends with the line `text`.
abbrev pub Stored : ℕ → List ℕ → List ℕ → Option (Mem × List ℕ) → Type 0
Stored buf text rest none = ⊥
Stored buf text rest (some (m, rest')) = Holds m buf text × (rest' ≡ rest)

abbrev line_end : List ℕ → List ℕ → Option (List ℕ × List ℕ)
line_end line rest = some (line, rest)

abbrev read_end : Mem → List ℕ → Option (Mem × List ℕ)
read_end m rest = some (m, rest)

ended :
    (m : Mem) (buf : ℕ) (text input line rest : List ℕ)
    → Holds m buf text
    → line_end text input ≡ line_end line rest
    → Stored buf line rest (read_end m input)
ended m buf text input line rest holds e =
    let p : text ≡ line = ground arith in
    let q : input ≡ rest = ground arith in (subst (λ t. Holds m buf t) p holds, q)

-- A round of the editor and one of the loop, by the two tests on the way.
kept :
    (buf n : ℕ) (text : List ℕ) (input : List ℕ) (m : Mem) (line rest : List ℕ)
    → Holds m buf text
    → edit n text input ≡ line_end line rest
    → Stored buf line rest (read_loop buf n (length text) input m)
unfolding read_loop
kept buf n text [] m line rest holds e = go (ltb (length text) n) e
  where
    go :
        (b : Bool)
        → (if b then none else line_end text []) ≡ line_end line rest
        → Stored buf line rest (if b then none else read_end m [])
    go true e = absurd (ground arith)
    go false e = ended m buf text [] line rest holds e
kept buf n [] (c ∷ input) m line rest holds e =
    go (ltb 0 n) (c == 0x08) e
      (λ e. kept buf n (c ∷ []) input (store m (buf + 0) c) line rest (ground arith, tt) e)
  where
    go :
        (b d : Bool)
        → (if not b then line_end [] (c ∷ input) else if d then none else edit n (c ∷ []) input)
          ≡ line_end line rest
        → (edit n (c ∷ []) input ≡ line_end line rest
            → Stored buf line rest (read_loop buf n 1 input (store m (buf + 0) c)))
        → Stored buf line rest (
            if not b
            then read_end m (c ∷ input)
            else if d
            then read_end (store m (buf + 0) c) input
            else read_loop buf n 1 input (store m (buf + 0) c))
    go false d e next = ended m buf [] (c ∷ input) line rest tt e
    go true true e next = absurd (ground arith)
    go true false e next = next e
kept buf n (d ∷ text) (c ∷ input) m line rest holds e =
    let i : ℕ = suc (length text) in
    go (ltb i n) (c == 0x08) e
      (λ e.
        subst (λ j. Stored buf line rest (read_loop buf n j input (store m (buf + i) c)))
          (omega arith)
          (kept buf n text input (store m (buf + i) c) line rest
            (Holds-store m buf c text i (omega arith) holds.1) e))
      (λ e.
        subst (λ j. Stored buf line rest (read_loop buf n j input (store m (buf + i) c)))
          (omega arith)
          (kept buf n (c ∷ d ∷ text) input (store m (buf + i) c) line rest
            (ground arith, Holds-store m buf c (d ∷ text) i (omega arith) holds) e))
  where
    go :
        (b s : Bool)
        → (if not b
            then line_end (d ∷ text) (c ∷ input)
            else if s
            then edit n text input
            else edit n (c ∷ d ∷ text) input)
          ≡ line_end line rest
        → (edit n text input ≡ line_end line rest
            → Stored buf line rest (
                read_loop buf n
                  (suc (length text) - 1)
                  input
                  (store m (buf + suc (length text)) c)))
        → (edit n (c ∷ d ∷ text) input ≡ line_end line rest
            → Stored buf line rest (
                read_loop buf n
                  (suc (length text) + 1)
                  input
                  (store m (buf + suc (length text)) c)))
        → Stored buf line rest (
            if not b
            then read_end m (c ∷ input)
            else if s
            then (if suc (length text) == 0
                then read_end (store m (buf + suc (length text)) c) input
                else read_loop buf n
                    (suc (length text) - 1)
                    input
                    (store m (buf + suc (length text)) c))
            else read_loop buf n
                (suc (length text) + 1)
                input
                (store m (buf + suc (length text)) c))
    go false s e back next = ended m buf (d ∷ text) (c ∷ input) line rest holds e
    go true true e back next = rw (==_of_ne (suc (length text)) 0 (omega arith)) (back e)
    go true false e back next = next e

-- A read that ends returns `n`, whether it stored `n` characters or not.
abbrev pub IsRead : ℕ → ℕ → List ℕ → List ℕ → Option (ℕ × Mem × List ℕ) → Type 0
IsRead buf n line rest none = ⊥
IsRead buf n line rest (some (result, m, rest')) =
    (result ≡ n % 2 ^ 32) × Holds m buf line × (rest' ≡ rest)

-- If the editor ends with a line on an input, syscall_read from descriptor 0 returns its count,
-- and leaves that line in the buffer and the rest of the input unread.
pub syscall_read-edit :
    (buf n : ℕ) (input : List ℕ) (m : Mem) (line rest : List ℕ)
    → edit n [] input ≡ some (line, rest)
    → IsRead buf n line rest (syscall_read 0 buf n input m)
unfolding syscall_read
syscall_read-edit buf n input m line rest e =
    go (read_loop buf n 0 input m) (kept buf n [] input m line rest tt e)
  where
    go :
        (r : Option (Mem × List ℕ))
        → Stored buf line rest r
        → IsRead buf n line rest (elim r [ none ↦ none | some r ↦ some (n % 2 ^ 32, r.0, r.1) ])
    go none s = s
    go (some r) s = (refl, s.0, s.1)

-- A backspace at the beginning ends a read of any length at once, with `n` as the result, as if
-- `n` characters had been read.
pub syscall_read-backspace :
    (buf n : ℕ) (input : List ℕ) (m : Mem)
    → 0 < n
    → syscall_read 0 buf n (0x08 ∷ input) m ≡ some (n % 2 ^ 32, store m (buf + 0) 0x08, input)
unfolding syscall_read read_loop
syscall_read-backspace buf n input m h = rw (ltb_of_lt 0 n h) refl

read_loop-done : (buf : ℕ) (input : List ℕ) (m : Mem) → read_loop buf 1 1 input m ≡ some (m, input)
unfolding read_loop
read_loop-done buf [] m = refl
read_loop-done buf (c ∷ input) m = refl

-- A read of one character takes the next one, whatever it is.
pub syscall_read-one :
    (buf c : ℕ) (input : List ℕ) (m : Mem)
    → syscall_read 0 buf 1 (c ∷ input) m ≡ some (1, store m buf c, input)
unfolding syscall_read read_loop
syscall_read-one buf c input m =
    let at : buf + 0 ≡ buf = omega arith in
    elim (Bool-cases (c == 0x08)) [
      | inl back ↦ rw (read_loop, back, at) refl
      | inr other ↦ rw (read_loop, other, at, read_loop-done buf input (store m buf c)) refl
    ]
