-- ===== src/Debugger/Symbols/Tests.antt =====
-- A table of one symbol, looked up by its own name.
use aos_kernel.Base.{◌≡◌, refl, some, List, [], ◌∷◌, arith}
use aos_kernel.Memory.{Mem}
use aos_kernel.Memory.Text.{IsString}
use aos_kernel.Memory.Word.{load64, store64}
use aos_kernel.Debugger.Symbols.{Tables, lookup_symbol}
use aos_kernel.Debugger.Symbols.Lookup.{Symbol, IsTable, lookup_symbol-value_of}

abbrev memory : Mem
unfolding store64
memory = store64 (store64 (store64 (λ _. 0) 100 0x6968) 200 0) 214 0x1234

abbrev tables : Tables
tables = record { strtab = 100; symtab = 200; num_symbols = 1 }

abbrev symbols : List Symbol
symbols = (b'h' ∷ b'i' ∷ [], 0x1234) ∷ []

memory-IsTable : IsTable memory 100 200 symbols
unfolding load64 memory
memory-IsTable = ((refl, (λ e. omega arith), (refl, (λ e. omega arith), refl)), refl, tt)

name_string : IsString memory 100 (b'h' ∷ b'i' ∷ [])
unfolding memory
name_string = (refl, (λ e. omega arith), (refl, (λ e. omega arith), refl))

symbol_found : lookup_symbol 9 tables 100 memory ≡ some 0x1234
symbol_found =
    lookup_symbol-value_of 9 100 tables memory (b'h' ∷ b'i' ∷ []) symbols memory-IsTable refl
      name_string (omega arith)
