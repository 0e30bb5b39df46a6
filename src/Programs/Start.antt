-- ===== src/Programs/Start.antt =====
-- execute_mod of kernel/proc.c from the stack on: the pages that it maps once the segments are
-- loaded, and the jump to user mode.
pub mod Maps
pub mod Stack
mod Tests
use aos_kernel.Base.{
  ℕ, zero, suc, ◌+◌, ◌-◌, ◌*◌, Bool, true, false, List, [], ◌∷◌, ◌++◌, ltb, if◌then◌else◌,
}
use aos_kernel.Paging.Pool.{Pool}
use aos_kernel.Paging.Tables.{vm_map, Outcome, done, fault}
use aos_kernel.Programs.Load.{page_size}

-- The arguments of a call of vm_map behind the table.
pub record MapCall : Type 0 where
  pub address : ℕ
  pub user : Bool
  pub writable : Bool
  pub executable : Bool

-- The calls one after the other. What vm_map returns is not looked at.
pub map_calls : ℕ → List MapCall → Pool → Outcome Pool
map_calls root [] k = done k
map_calls root (c ∷ cs) k = elim (vm_map root c.address c.user c.writable c.executable k) [
  | done r ↦ map_calls root cs r.1
  | fault ↦ fault
]

abbrev pub user_stack : ℕ
user_stack = 0x70000000000

abbrev pub user_stack_size : ℕ
user_stack_size = 8 * page_size

-- The loop over the pages of the stack, with fuel.
pub stack_calls : ℕ → ℕ → List MapCall
stack_calls zero p = []
stack_calls (suc fuel) p =
    let rest = stack_calls fuel (p + 0x1000) in
    if ltb p (user_stack + user_stack_size)
    then record { address = p; user = true; writable = true; executable = false } ∷ rest
    else []

abbrev pub test_page : ℕ
test_page = 0x400000000

abbrev pub test_page2 : ℕ
test_page2 = 0x400001800

unfoldable pub start_calls : List MapCall
start_calls =
    stack_calls 5 user_stack
    ++ (record { address = test_page; user = true; writable = true; executable = false }
        ∷ record { address = test_page2; user = false; writable = true; executable = false }
        ∷ [])

-- The arguments of usermode_entry, the selectors with privilege level 3.
pub record UserEntry : Type 0 where
  pub data_selector : ℕ
  pub stack_pointer : ℕ
  pub code_selector : ℕ
  pub entry : ℕ

abbrev pub user_entry : ℕ → UserEntry
user_entry e_entry = record {
  data_selector = 0x40 + 3;
  stack_pointer = user_stack + user_stack_size - 8;
  code_selector = 0x38 + 3;
  entry = e_entry;
}

-- The state in which the program starts at `e_entry`.
unfoldable pub start : ℕ → ℕ → Pool → Outcome (UserEntry × Pool)
start root e_entry k = elim (map_calls root start_calls k) [
  | done k' ↦ done (user_entry e_entry, k')
  | fault ↦ fault
]
