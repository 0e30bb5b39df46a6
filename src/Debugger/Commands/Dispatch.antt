-- ===== src/Debugger/Commands/Dispatch.antt =====
-- The choice of the command, against the words as texts.
use aos_kernel.Base.{
  ℕ, ◌<◌, ◌≡◌, ◌≢◌, refl, ap₂, inl, inr, Bool, true, false, Bool-cases, Option, some, List, [], ◌∷◌,
  arith, length, ◌&&◌, ◌==◌, if◌then◌else◌, get_or,
}
use aos_kernel.Memory.{Mem}
use aos_kernel.Memory.Text.{IsString}
use aos_kernel.Stdlib.Strings.Laws.{my_strcmp-IsCompared}
use aos_kernel.Stdlib.Strings.Pieces.{StringsAt}
use aos_kernel.Debugger.Commands.{
  Action, valid_commands, ask_address, show_stack, address_needed, show_string, show_int,
  valid_arguments, leave, Literals, test, print_command, command,
}

abbrev pub print_text : List ℕ
print_text = b'p' ∷ b'r' ∷ b'i' ∷ b'n' ∷ b't' ∷ []

abbrev pub stack_text : List ℕ
stack_text = b's' ∷ b't' ∷ b'a' ∷ b'c' ∷ b'k' ∷ []

abbrev pub string_text : List ℕ
string_text = b's' ∷ b't' ∷ b'r' ∷ b'i' ∷ b'n' ∷ b'g' ∷ []

abbrev pub continue_text : List ℕ
continue_text = b'c' ∷ b'o' ∷ b'n' ∷ b't' ∷ b'i' ∷ b'n' ∷ b'u' ∷ b'e' ∷ []

-- Equality of texts.
abbrev pub same : List ℕ → List ℕ → Bool
same [] [] = true
same [] (d ∷ t) = false
same (c ∷ s) [] = false
same (c ∷ s) (d ∷ t) = (c == d) && same s t

pub same-≡ : (s t : List ℕ) → same s t ≡ true → s ≡ t
same-≡ [] [] e = refl
same-≡ [] (d ∷ t) e = ground arith
same-≡ (c ∷ s) [] e = ground arith
same-≡ (c ∷ s) (d ∷ t) e = ap₂ ◌∷◌ (ground arith) (same-≡ s t (ground arith))

same_refl : (s : List ℕ) → same s s ≡ true
same_refl [] = refl
same_refl (c ∷ s) = ground (arith, same_refl s)

pub differs :
    (s t : List ℕ) (code : ℕ) → (code ≡ 0 → s ≡ t) → same s t ≡ false → (code == 0) ≡ false
differs s t code f e = elim (Bool-cases (code == 0)) [
  | inl z ↦
      let q : s ≡ t = f (ground arith) in
      let r : same s t ≡ true = rw q (same_refl t) in ground arith
  | inr z ↦ z
]

first : (m : Mem) (p : ℕ) (w : List ℕ) → IsString m p w → m p ≡ get_or w 0 0
first m p [] h = h
first m p (c ∷ w) h = h.0

some_if :
    (b : Bool) (x : Action) {y : Action} {o : Option Action}
    → o ≡ some y
    → (if b then some x else o) ≡ some (if b then x else y)
some_if true x e = refl
some_if false x e = e

-- What the words mean.
abbrev pub print_meaning : ℕ → ℕ → List (List ℕ) → Action
print_meaning p q [] = ask_address
print_meaning p q (w ∷ ws) =
    if same stack_text w
    then show_stack
    else if same string_text w
    then elim ws [ [] ↦ address_needed | _ ∷ _ ↦ show_string q ]
    else if get_or w 0 0 == b'0'
    then show_int p
    else valid_arguments

abbrev pub meaning : List ℕ → List (List ℕ) → Action
meaning ps [] = valid_commands
meaning ps (w ∷ ws) =
    if same print_text w
    then print_meaning (get_or ps 1 0) (get_or ps 2 0) ws
    else if same continue_text w
    then leave
    else valid_commands

-- No pointer is NULL.
abbrev pub AllSet : List ℕ → Type 0
AllSet [] = Unit {0}
AllSet (p ∷ ps) = (p ≢ 0) × AllSet ps

pub record IsLoaded (m : Mem) (l : Literals) : Type 0 where
  pub print_at : IsString m l.print print_text
  pub stack_at : IsString m l.stack stack_text
  pub string_at : IsString m l.string string_text
  pub continue_at : IsString m l.continue_ continue_text

module _ (fuel : ℕ) (literals : Literals) (m : Mem) where
  test-same :
      (lit p : ℕ) (s t : List ℕ) (equal other : Option Action)
      → IsString m lit s
      → IsString m p t
      → length s < fuel
      → test fuel literals lit p m equal other ≡ (if same s t then equal else other)
  test-same lit p s t equal other h k l =
      let c = my_strcmp-IsCompared fuel lit p m s t h k l in
      rw c.returns (elim (Bool-cases (same s t)) [
        | inl e ↦ let z : c.code ≡ 0 = c.zero_iff.1 (same-≡ s t e) in rw (e, z) refl
        | inr e ↦
            let z : (c.code == 0) ≡ false = differs s t c.code c.zero_iff.0 e in rw (e, z) refl
      ])

  last_word :
      (ps : List ℕ) (ws : List (List ℕ))
      → AllSet ps
      → StringsAt m ps ws
      → (if get_or ps 0 0 == 0 then address_needed else show_string (get_or ps 0 0))
        ≡ elim ws [ [] ↦ address_needed | _ ∷ _ ↦ show_string (get_or ps 0 0) ]
  last_word [] [] n h = refl
  last_word [] (w ∷ ws) n h = elim h [ ]
  last_word (p ∷ ps) [] n h = elim h [ ]
  last_word (p ∷ ps) (w ∷ ws) n h = let z = n.0 in ground arith

  print_command-meaning :
      (ps : List ℕ) (ws : List (List ℕ))
      → IsLoaded m literals
      → AllSet ps
      → StringsAt m ps ws
      → 8 < fuel
      → print_command fuel literals (get_or ps 0 0) (get_or ps 1 0) m
        ≡ some (print_meaning (get_or ps 0 0) (get_or ps 1 0) ws)
  unfolding print_command
  print_command-meaning [] [] i n h l = refl
  print_command-meaning [] (w ∷ ws) i n h l = elim h [ ]
  print_command-meaning (p ∷ ps) [] i n h l = elim h [ ]
  print_command-meaning (p ∷ ps) (w ∷ ws) i n (h, t) l =
      let set : (p == 0) ≡ false = let z = n.0 in ground arith in
      rw
        (
          set,
          test-same literals.stack p stack_text w (some show_stack)
              (test fuel literals literals.string p m
                (some (if get_or ps 0 0 == 0 then address_needed else show_string (get_or ps 0 0)))
                (some (if m p == b'0' then show_int p else valid_arguments)))
              i.stack_at h (omega arith),
          test-same literals.string p string_text w
              (some (if get_or ps 0 0 == 0 then address_needed else show_string (get_or ps 0 0)))
              (some (if m p == b'0' then show_int p else valid_arguments)) i.string_at h
              (omega arith),
          first m p w h,
          last_word ps ws n.1 t,
        )
        (some_if (same stack_text w) show_stack (
          some_if (same string_text w)
            (elim ws [ [] ↦ address_needed | _ ∷ _ ↦ show_string (get_or ps 0 0) ]) refl))

  -- The words of a line that stand behind the pointers choose the command: what my_strcmp and the
  -- tests for NULL decide is what the texts say.
  pub command-meaning :
      (ps : List ℕ) (ws : List (List ℕ))
      → IsLoaded m literals
      → AllSet ps
      → StringsAt m ps ws
      → 8 < fuel
      → command fuel literals ps m ≡ some (meaning ps ws)
  unfolding command
  command-meaning [] [] i n h l = refl
  command-meaning [] (w ∷ ws) i n h l = elim h [ ]
  command-meaning (p ∷ ps) [] i n h l = elim h [ ]
  command-meaning (p ∷ ps) (w ∷ ws) i n (h, t) l =
      let set : (p == 0) ≡ false = let z = n.0 in ground arith in
      rw
        (
          set,
          test-same literals.print p print_text w
              (print_command fuel literals (get_or ps 0 0) (get_or ps 1 0) m)
              (test fuel literals literals.continue_ p m (some leave) (some valid_commands))
              i.print_at h (omega arith),
          test-same literals.continue_ p continue_text w (some leave) (some valid_commands)
              i.continue_at h (omega arith),
          print_command-meaning ps ws i n.1 t l,
        )
        (some_if (same print_text w) (print_meaning (get_or ps 0 0) (get_or ps 1 0) ws)
          (some_if (same continue_text w) leave refl))
