-- ===== src/Debugger/Symbols.antt =====
-- lookup_symbol of kernel/debug.c over a symbol table in memory; the names that it prints are
-- left out.
pub mod Lookup
mod Tests
use aos_kernel.Base.{ℕ, zero, suc, ◌+◌, ◌*◌, Option, none, some, ◌==◌, if◌then◌else◌}
use aos_kernel.Memory.{Mem}
use aos_kernel.Memory.Word.{load64}
use aos_kernel.Stdlib.Strings.{my_strcmp}
use aos_kernel.Print.Digits.{◌>>=◌}

-- The globals `strtab`, `symtab` and `num_symbols`.
pub record Tables : Type 0 where
  pub strtab : ℕ
  pub symtab : ℕ
  pub num_symbols : ℕ

-- The loop with `left` symbols to go from `i` on. The packed
-- Elf64_Sym of kernel/elf.h has 30 bytes: 64 bits of st_name at its beginning, st_value at 14.
pub lookup_loop : ℕ → ℕ → ℕ → Tables → ℕ → Mem → Option ℕ
lookup_loop fuel zero i t symbol m = some 0
lookup_loop fuel (suc left) i t symbol m =
    let sym = t.symtab + i * 30 in
    let rest = lookup_loop fuel left (i + 1) t symbol m in
    my_strcmp fuel symbol (t.strtab + load64 m sym) m >>= λ r.
    if r == 0 then some (load64 m (sym + 14)) else rest

pub lookup_symbol : ℕ → Tables → ℕ → Mem → Option ℕ
lookup_symbol fuel t symbol m = lookup_loop fuel t.num_symbols 0 t symbol m
