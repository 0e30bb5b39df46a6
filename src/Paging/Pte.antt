-- ===== src/Paging/Pte.antt =====
-- pte_t of kernel/paging.c: the bit fields of a page table entry in its 64-bit word. The compiler
-- of the Makefiles (clang for x86-64) packs them from the lowest bit on.
pub mod Laws
mod Tests
use aos_kernel.Base.{ℕ, ◌+◌, ◌*◌, ◌/◌, ◌%◌, ◌^◌, Bool, ◌==◌, bit}

pub record Pte : Type 0 where
  pub present : Bool
  pub writable : Bool
  pub user : Bool
  pub write_through : Bool
  pub cache_disable : Bool
  pub accessed : Bool
  pub dirty : Bool
  pub page_size : Bool
  pub unused : ℕ
  pub address : ℕ
  pub no_execute : Bool

-- Bit `k` of a word.
abbrev pub test_bit : ℕ → ℕ → Bool
test_bit w k = w / 2 ^ k % 2 == 1

-- The fields of a word.
unfoldable pub decode : ℕ → Pte
decode w = record {
  present = test_bit w 0;
  writable = test_bit w 1;
  user = test_bit w 2;
  write_through = test_bit w 3;
  cache_disable = test_bit w 4;
  accessed = test_bit w 5;
  dirty = test_bit w 6;
  page_size = test_bit w 7;
  unused = w / 2 ^ 8 % 2 ^ 4;
  address = w / 2 ^ 12 % 2 ^ 51;
  no_execute = test_bit w 63;
}

-- The word of the fields.
unfoldable pub encode : Pte → ℕ
encode e =
    bit e.present
    + bit e.writable * 2
    + bit e.user * 2 ^ 2
    + bit e.write_through * 2 ^ 3
    + bit e.cache_disable * 2 ^ 4
    + bit e.accessed * 2 ^ 5
    + bit e.dirty * 2 ^ 6
    + bit e.page_size * 2 ^ 7
    + e.unused * 2 ^ 8
    + e.address * 2 ^ 12
    + bit e.no_execute * 2 ^ 63
