-- ===== src/Programs/Start/Stack.antt =====
-- The user space in which a program starts: its stack and the two test pages.
use aos_kernel.Base.{ℕ, ◌+◌, ◌*◌, ◌≤◌, ◌<◌, ◌≡◌, ◌⊎◌, Bool, true, false, none, some, List, length}
use aos_kernel.Descriptors.Gdt.{user_code_selector, user_data_selector}
use aos_kernel.Paging.Pte.{Pte}
use aos_kernel.Paging.Pool.{Pool}
use aos_kernel.Paging.Tables.{Outcome, done}
use aos_kernel.Paging.Tables.Space.{user_end}
use aos_kernel.Paging.Tables.Space.Laws.{IsSpace, page_entry, Permits}
use aos_kernel.Programs.Start.{user_stack, user_stack_size, test_page, test_page2, UserEntry}

-- An address is neither on the stack nor on a test page.
abbrev pub Elsewhere : ℕ → Type 0
Elsewhere b =
    ((b < user_stack) ⊎ (user_stack + user_stack_size ≤ b))
    × ((b < test_page) ⊎ (test_page + 2 * 4096 ≤ b))

-- What the page walk finds for an address, and what it found before.
pub record IsGiven (user writable executable : Bool) (root b : ℕ) (k k' : Pool) : Type 0 where
  pub entry : Pte
  pub found : page_entry root b k' ≡ some entry
  pub before :
      (page_entry root b k ≡ some entry)
      ⊎ ((page_entry root b k ≡ none) × Permits user writable executable entry)

-- The state in which the program starts.
pub record IsStarted (root e_entry : ℕ) (k : Pool) (fs : List ℕ)
    (result : Outcome (UserEntry × Pool)) : Type 0 where
  pub at : UserEntry
  pub state : Pool
  pub returns : result ≡ done (at, state)
  pub left : List ℕ
  pub space : IsSpace root state left
  pub used : length fs ≤ length left + 24
  pub entry_is : at.entry ≡ e_entry
  pub level :
      (at.code_selector ≡ user_code_selector + 3) × (at.data_selector ≡ user_data_selector + 3)
  pub stack_pointer :
      (user_stack ≤ at.stack_pointer) × (at.stack_pointer + 8 ≡ user_stack + user_stack_size)
  pub stack :
      (b : ℕ)
      → user_stack ≤ b
      → b < user_stack + user_stack_size
      → IsGiven true true false root b k state
  pub tests :
      IsGiven true true false root test_page k state
      × IsGiven false true false root test_page2 k state
  pub others : (b : ℕ) → b < user_end → Elsewhere b → page_entry root b state ≡ page_entry root b k
