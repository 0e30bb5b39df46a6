-- ===== src/Interrupts/Exceptions/Reports.antt =====
-- Which lines the bits of an error code call forth.
use aos_kernel.Base.{
  ℕ, ◌+◌, ◌*◌, ◌/◌, ◌%◌, ◌^◌, ◌≡◌, refl, ap, ◌&&◌, Bool, true, false, not, ◌||◌, List, some, [],
  ◌∷◌, ◌++◌, arith, ◌==◌, if◌then◌else◌,
}
use aos_kernel.Descriptors.Idt.{
  Handler, exception10, exception11, exception12, exception13, segfault,
}
use aos_kernel.Interrupts.Exceptions.{
  Line, name_ec, cr2, external, in_idt, in_ldt, non_present, protection, read_access, write_access,
  cpl3, fetch, shadow_stack, sgx, reserved_bits, protection_key, when, selector_lines, fault_lines,
  handler_lines,
}

-- The table that a selector error code names: bit 1 is set for the IDT, and bit 2 tells the LDT
-- from the GDT otherwise.
pub data Table : Type 0 where
  gdt : Table
  idt : Table
  ldt : Table

abbrev pub table_of : ℕ → Table
table_of ec = if ec / 2 % 2 == 1 then idt else if ec / 4 % 2 == 1 then ldt else gdt

-- The lines for a table: none for the GDT, and two for the LDT.
abbrev pub table_lines : Table → Bool → ℕ → List Line
table_lines gdt both i = []
table_lines idt both i = in_idt i ∷ (if both then in_ldt i ∷ [] else [])
table_lines ldt both i = in_idt i ∷ in_ldt i ∷ []

selector_lines-table :
    (ec : ℕ)
    → selector_lines ec
      ≡ when (ec % 2 == 1) external ++ table_lines (table_of ec) (ec / 4 % 2 == 1) (ec / 8 % 2 ^ 16)
unfolding selector_lines
selector_lines-table ec = ground arith

abbrev pub test_bit : ℕ → ℕ → Bool
test_bit ec k = ec / 2 ^ k % 2 == 1

-- The lines for the bits 0 to 3 of a page fault's error code.
abbrev pub told : Bool → Bool → Bool → Bool → List Line
told present write user reserved =
    (if present then protection else non_present)
    ∷ (if write then write_access else read_access)
    ∷ (if present
        then when (not write) cpl3
          ++ when (not user) fetch
          ++ (if write || user then [] else shadow_stack ∷ when (not reserved) sgx)
        else [])

even_bit : (ec : ℕ) → (ec % 2 == 0) ≡ not (test_bit ec 0)
even_bit ec = ground arith

write_bit : (ec : ℕ) → (ec / 2 % 2 * 2 == 0) ≡ not (test_bit ec 1)
write_bit ec = ground arith

cpl3_bits : (ec : ℕ) → (ec % 2 ^ 2 == 1) ≡ (test_bit ec 0 && not (test_bit ec 1))
cpl3_bits ec = ground arith

reserved_bit : (ec : ℕ) → (ec / 2 ^ 2 % 2 * 2 ^ 2 == 1) ≡ false
reserved_bit ec = ground arith

fetch_bits :
    (ec : ℕ) → (ec % 2 + ec / 2 ^ 2 % 2 * 2 ^ 2 == 1) ≡ (test_bit ec 0 && not (test_bit ec 2))
fetch_bits ec = ground arith

key_bits : (ec : ℕ) → (ec / 2 % 2 ^ 2 * 2 == 1) ≡ false
key_bits ec = ground arith

shadow_bits :
    (ec : ℕ) → (ec % 2 ^ 3 == 1) ≡ (test_bit ec 0 && not (test_bit ec 1) && not (test_bit ec 2))
shadow_bits ec = ground arith

sgx_bits :
    (ec : ℕ)
    → (ec % 2 ^ 4 == 1)
      ≡ (test_bit ec 0 && not (test_bit ec 1) && not (test_bit ec 2) && not (test_bit ec 3))
sgx_bits ec = ground arith

fault_lines-told :
    (ec : ℕ) → fault_lines ec ≡ told (test_bit ec 0) (test_bit ec 1) (test_bit ec 2) (test_bit ec 3)
unfolding fault_lines
fault_lines-told ec =
    rw
      (
        even_bit ec,
        write_bit ec,
        cpl3_bits ec,
        reserved_bit ec,
        fetch_bits ec,
        key_bits ec,
        shadow_bits ec,
        sgx_bits ec,
      )
      (go (test_bit ec 0) (test_bit ec 1) (test_bit ec 2) (test_bit ec 3))
  where
    go :
        (p w u r : Bool)
        → (if not p then non_present ∷ [] else protection ∷ [])
            ++ (if not w then read_access ∷ [] else write_access ∷ [])
            ++ when (p && not w) cpl3
            ++ when false reserved_bits
            ++ when (p && not u) fetch
            ++ when false protection_key
            ++ when (p && not w && not u) shadow_stack
            ++ when (p && not w && not u && not r) sgx
          ≡ told p w u r
    go false false u r = refl
    go false true u r = refl
    go true true true r = refl
    go true true false r = refl
    go true false true r = refl
    go true false false true = refl
    go true false false false = refl

-- The report of a page fault, for each error code: the first two lines tell bits 0 and 1 as they
-- are; the line for user mode comes exactly for a read of a present page, whatever bit 2 says;
-- the lines for a fetch, a shadow stack and SGX come for a present page and depend on bits 1 to 3
-- only; and the lines for reserved bits and a protection key never come.
pub handler_lines-page_fault :
    (ec fault : ℕ)
    → handler_lines segfault ec fault
      ≡ some (
          cr2 fault
          ∷ name_ec ec
          ∷ told (test_bit ec 0) (test_bit ec 1) (test_bit ec 2) (test_bit ec 3))
unfolding handler_lines
handler_lines-page_fault ec fault =
    ap (λ ls. some (cr2 fault ∷ name_ec ec ∷ ls)) (fault_lines-told ec)

-- The handlers of the four exceptions that report a selector.
abbrev pub reports_selector : Handler → Bool
reports_selector exception10 = true
reports_selector exception11 = true
reports_selector exception12 = true
reports_selector exception13 = true
reports_selector _ = false

-- The report of a selector error: the external event for bit 0, and then the table that the code
-- names, but for a selector of the GDT no table at all, and for one of the LDT both the IDT and
-- the LDT.
pub handler_lines-selector :
    (h : Handler) (ec fault : ℕ)
    → reports_selector h ≡ true
    → handler_lines h ec fault
      ≡ some (
          name_ec ec ∷ when (ec % 2 == 1) external
          ++ table_lines (table_of ec) (ec / 4 % 2 == 1) (ec / 8 % 2 ^ 16))
unfolding handler_lines
handler_lines-selector exception10 ec fault h =
    ap (λ ls. some (name_ec ec ∷ ls)) (selector_lines-table ec)
handler_lines-selector exception11 ec fault h =
    ap (λ ls. some (name_ec ec ∷ ls)) (selector_lines-table ec)
handler_lines-selector exception12 ec fault h =
    ap (λ ls. some (name_ec ec ∷ ls)) (selector_lines-table ec)
handler_lines-selector exception13 ec fault h =
    ap (λ ls. some (name_ec ec ∷ ls)) (selector_lines-table ec)
handler_lines-selector _ ec fault h = absurd (ground arith)
