-- ===== src/Descriptors/Idt/Gates.antt =====
-- Which handler the processor finds for each vector, and where.
use aos_kernel.Base.{
  ℕ, ◌+◌, ◌*◌, ◌^◌, ◌<◌, ◌≡◌, refl, ap, ◌∙◌, Bool, true, false, not, ◌&&◌, ◌||◌, Option, none, some,
  List, [], ◌∷◌, arith, leb, ◌==◌, if◌then◌else◌, check_below, check_below_lem,
}
use aos_kernel.Descriptors.Idt.{
  IdtEntry, Idt, gate, idt_set_handler, Handler, Call, example_calls, setup_calls, set_handlers,
  idt_setup, example_handler_ec, exception8, exception10, exception11, exception12, exception13,
  segfault, exception17, exception21, exception29, exception30,
}

-- The address that the processor jumps to.
abbrev pub target : IdtEntry → ℕ
target e = e.offset_0 + e.offset_1 * 2 ^ 16 + e.offset_2 * 2 ^ 32

-- The last call for a vector.
abbrev pub last_call : ℕ → List Call → Option Call
last_call i [] = none
last_call i (c ∷ cs) = elim (last_call i cs) [
  | some d ↦ some d
  | none ↦ if i == c.vector then some c else none
]

-- The entry that the last call leaves.
abbrev pub settled : (Handler → ℕ) → Option Call → IdtEntry → IdtEntry
settled address none e = e
settled address (some c) e = gate (address c.handler) c.kind e

gate_again : (f g k l : ℕ) (e : IdtEntry) → gate f k (gate g l e) ≡ gate f k e
gate_again f g k l e = refl

settled_again :
    (address : Handler → ℕ) (cs : List Call) (c : Call) (i : ℕ) (idt : Idt)
    → settled address (last_call i cs) (idt_set_handler c.vector (address c.handler) c.kind idt i)
      ≡ settled address (last_call i (c ∷ cs)) (idt i)
unfolding idt_set_handler
settled_again address cs c i idt = go (last_call i cs) (i == c.vector)
  where
    go :
        (last : Option Call) (here : Bool)
        → settled address last (if here then gate (address c.handler) c.kind (idt i) else idt i)
          ≡ settled address
              (elim last [ some d ↦ some d | none ↦ if here then some c else none ])
              (idt i)
    go none true = refl
    go none false = refl
    go (some d) true = refl
    go (some d) false = refl

set_handlers-settled :
    (address : Handler → ℕ) (cs : List Call) (idt : Idt) (i : ℕ)
    → set_handlers address cs idt i ≡ settled address (last_call i cs) (idt i)
unfolding set_handlers
set_handlers-settled address [] idt i = refl
set_handlers-settled address (c ∷ cs) idt i =
    set_handlers-settled address cs (idt_set_handler c.vector (address c.handler) c.kind idt) i
    ∙ settled_again address cs c i idt

-- The handlers that are written for an error code, which the processor pushes.
abbrev pub takes_error_code : Handler → Bool
takes_error_code example_handler_ec = true
takes_error_code exception8 = true
takes_error_code exception10 = true
takes_error_code exception11 = true
takes_error_code exception12 = true
takes_error_code exception13 = true
takes_error_code segfault = true
takes_error_code exception17 = true
takes_error_code exception21 = true
takes_error_code exception29 = true
takes_error_code exception30 = true
takes_error_code _ = false

-- The vectors for which the processor pushes one.
abbrev pub pushes_error_code : ℕ → Bool
pushes_error_code i = i == 8 || (leb 10 i && leb i 14) || i == 17 || i == 21 || i == 29 || i == 30

abbrev same : Bool → Bool → Bool
same true b = b
same false b = not b

abbrev code_row : ℕ → Bool
code_row i = elim (last_call i setup_calls) [
  | none ↦ true
  | some c ↦ i == 15 || same (takes_error_code c.handler) (pushes_error_code i)
]

code_table : check_below 256 code_row ≡ true
unfolding check_below example_calls
code_table = refl

same_sound : (a b : Bool) → same a b ≡ true → a ≡ b
same_sound true true h = refl
same_sound true false h = ground arith
same_sound false true h = ground arith
same_sound false false h = refl

row_sound :
    (i : ℕ) (c : Call)
    → last_call i setup_calls ≡ some c
    → (i == 15) ≡ false
    → code_row i ≡ true
    → takes_error_code c.handler ≡ pushes_error_code i
row_sound i c last other row =
    same_sound (takes_error_code c.handler) (pushes_error_code i)
      (go (last_call i setup_calls) (i == 15) last other row)
  where
    go :
        (o : Option Call) (b : Bool)
        → o ≡ some c
        → b ≡ false
        → (elim o [
          | none ↦ true
          | some c ↦ b || same (takes_error_code c.handler) (pushes_error_code i)
        ])
          ≡ true
        → same (takes_error_code c.handler) (pushes_error_code i) ≡ true
    go o b e f h = let h' = rw (e, f) at h in h'

target-gate : (f k : ℕ) (e : IdtEntry) → f < 2 ^ 64 → target (gate f k e) ≡ f
target-gate f k e h = omega arith

-- After idt_setup, the gate of each vector that it sets is present and leads to the whole
-- 64-bit address of the handler last given for the vector, and that handler takes an error code
-- exactly when the processor pushes one for the vector; vector 15, which keeps the example
-- handler, is the exception to the latter.
pub idt_setup-gate :
    (address : Handler → ℕ) (idt : Idt) (i : ℕ) (c : Call)
    → address c.handler < 2 ^ 64
    → i < 256
    → (i == 15) ≡ false
    → last_call i setup_calls ≡ some c
    → (target (idt_setup address idt i) ≡ address c.handler)
      × ((idt_setup address idt i).present ≡ 1)
      × (takes_error_code c.handler ≡ pushes_error_code i)
unfolding idt_setup
idt_setup-gate address idt i c small low other last =
    let e =
      set_handlers-settled address setup_calls idt i ∙ ap (λ o. settled address o (idt i)) last in
    (
      ap target e ∙ target-gate (address c.handler) c.kind (idt i) small,
      ap (λ g. g.present) e,
      row_sound i c last other (check_below_lem 256 code_row i code_table low),
    )

-- idt_setup leaves the entries of all other vectors alone.
pub idt_setup-rest :
    (address : Handler → ℕ) (idt : Idt) (i : ℕ)
    → last_call i setup_calls ≡ none
    → idt_setup address idt i ≡ idt i
unfolding idt_setup
idt_setup-rest address idt i h =
    set_handlers-settled address setup_calls idt i ∙ ap (λ o. settled address o (idt i)) h
