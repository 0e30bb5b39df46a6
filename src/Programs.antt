-- ===== src/Programs.antt =====
-- kernel/proc.c: the modules that the boot loader gives, by the addresses of their names.
pub mod Names
pub mod Load
pub mod Start
mod Tests
use aos_kernel.Base.{ℕ, ◌-◌, ◌^◌, Option, none, some, List, [], ◌∷◌, ◌==◌, if◌then◌else◌}
use aos_kernel.Memory.{Mem}
use aos_kernel.Stdlib.Strings.{my_strcmp}

-- The loop of check_mod, with fuel for each comparison. -1 is written as an `int`'s bits.
pub check_mod : ℕ → List ℕ → ℕ → Mem → Option ℕ
check_mod fuel [] mod_name m = some (2 ^ 32 - 1)
check_mod fuel (module_name ∷ modules) mod_name m =
    let rest = check_mod fuel modules mod_name m in
    elim (my_strcmp fuel module_name mod_name m) [
      | none ↦ none
      | some r ↦ if r == 0 then some 0 else rest
    ]
