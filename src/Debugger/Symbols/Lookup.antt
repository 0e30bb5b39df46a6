-- ===== src/Debugger/Symbols/Lookup.antt =====
-- lookup_symbol against a list of names and values.
use aos_kernel.Base.{
  ℕ, ◌+◌, ◌*◌, ◌<◌, ◌≡◌, refl, ap, ◌∙◌, inl, inr, Bool-cases, false, some, List, [], ◌∷◌, arith,
  length, ◌==◌, if◌then◌else◌,
}
use aos_kernel.Memory.{Mem}
use aos_kernel.Memory.Text.{IsString}
use aos_kernel.Memory.Word.{load64}
use aos_kernel.Stdlib.Strings.Laws.{my_strcmp-IsCompared}
use aos_kernel.Debugger.Commands.Dispatch.{same, same-≡, differs}
use aos_kernel.Debugger.Symbols.{Tables, lookup_loop, lookup_symbol}

-- A symbol: its name and its value.
abbrev pub Symbol : Type 0
Symbol = List ℕ × ℕ

-- The symbols stand in the table from the entry at `a` on, with their names in the string table.
abbrev pub IsTable : Mem → ℕ → ℕ → List Symbol → Type 0
IsTable m strtab a [] = Unit {0}
IsTable m strtab a (s ∷ ss) =
    IsString m (strtab + load64 m a) s.0 × (load64 m (a + 14) ≡ s.1) × IsTable m strtab (a + 30) ss

-- The value of the first symbol of that name, or 0.
abbrev pub value_of : List ℕ → List Symbol → ℕ
value_of name [] = 0
value_of name (s ∷ ss) = if same name s.0 then s.1 else value_of name ss

lookup_loop-value_of :
    (fuel i a symbol : ℕ) (t : Tables) (m : Mem) (name : List ℕ) (ss : List Symbol)
    → a ≡ t.symtab + i * 30
    → IsTable m t.strtab a ss
    → IsString m symbol name
    → length name < fuel
    → lookup_loop fuel (length ss) i t symbol m ≡ some (value_of name ss)
unfolding lookup_loop
lookup_loop-value_of fuel i a symbol t m name [] e h n l = refl
lookup_loop-value_of fuel i a symbol t m name (s ∷ ss) e (string, value, h) n l =
    let c = my_strcmp-IsCompared fuel symbol (t.strtab + load64 m a) m name s.0 n string l in
    let rest = lookup_loop-value_of fuel (i + 1) (a + 30) symbol t m name ss (omega arith) h n l in
    rw (← e, c.returns)
      (elim (Bool-cases (same name s.0)) [
        | inl equal ↦
            let z : c.code ≡ 0 = c.zero_iff.1 (same-≡ name s.0 equal) in rw (equal, z, value) refl
        | inr other ↦
            let z : (c.code == 0) ≡ false = differs name s.0 c.code c.zero_iff.0 other in
            rw (other, z) rest
      ])

-- lookup_symbol of a name that stands in memory returns the value of the first symbol with that
-- name, and 0 if there is none.
pub lookup_symbol-value_of :
    (fuel symbol : ℕ) (t : Tables) (m : Mem) (name : List ℕ) (ss : List Symbol)
    → IsTable m t.strtab t.symtab ss
    → t.num_symbols ≡ length ss
    → IsString m symbol name
    → length name < fuel
    → lookup_symbol fuel t symbol m ≡ some (value_of name ss)
unfolding lookup_symbol
lookup_symbol-value_of fuel symbol t m name ss h e n l =
    ap (λ count. lookup_loop fuel count 0 t symbol m) e
    ∙ lookup_loop-value_of fuel 0 t.symtab symbol t m name ss (omega arith) h n l
