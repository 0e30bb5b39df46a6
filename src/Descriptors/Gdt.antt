-- ===== src/Descriptors/Gdt.antt =====
-- kernel/gdt.c. The arrays `gdt` and `tss` are byte arrays of their own, a byte at each index.
-- Loading the registers (`lgdt`, `ltr`) is the processor's part; the record that `lgdt` gets is
-- kept.
pub mod Words
mod Tests
use aos_kernel.Base.{ℕ, ◌+◌, ◌-◌, ◌*◌, ◌/◌, ◌%◌, ◌^◌, Bool, true, false, ltb, if◌then◌else◌}
use aos_kernel.Memory.{Mem, store}
use aos_kernel.Memory.Word.{store64}
use aos_kernel.Stdlib.Bytes.{memset}

pub record Gdt : Type 0 where
  pub gdt : Mem
  pub gdt_size : ℕ
  pub tss : Mem

-- `gdt_size` grows to the end of a descriptor of `size` bytes.
abbrev pub grow : ℕ → ℕ → ℕ → ℕ
grow gdt_size offset size = if ltb gdt_size (offset + size) then offset + size else gdt_size

-- The bit field `flags`, the upper half of byte 6.
abbrev pub set_flags : ℕ → ℕ → Mem → Mem
set_flags offset flags m = store m (offset + 6) (m (offset + 6) % 2 ^ 4 + flags * 2 ^ 4)

-- `0x9A | (user ? 0x60 : 0)`
pub gdt_code_descriptor : ℕ → Bool → Gdt → Gdt
gdt_code_descriptor offset user k = record k {
  gdt_size = grow k.gdt_size offset 8;
  gdt =
      set_flags offset 0x2
        (store (memset offset 8 k.gdt) (offset + 5) (if user then 0xfa else 0x9a));
}

-- `0x92 | (user ? 0x60 : 0)`
pub gdt_data_descriptor : ℕ → Bool → Gdt → Gdt
gdt_data_descriptor offset user k = record k {
  gdt_size = grow k.gdt_size offset 8;
  gdt = store (memset offset 8 k.gdt) (offset + 5) (if user then 0xf2 else 0x92);
}

-- `sizeof(tss_t)`
abbrev pub tss_bytes : ℕ
tss_bytes = 104

-- The bit fields of sys_descriptor_t that are set, byte by byte.
abbrev pub set_base_0 : ℕ → ℕ → Mem → Mem
set_base_0 offset v m =
    store (store (store m (offset + 2) (v % 2 ^ 8)) (offset + 3) (v / 2 ^ 8 % 2 ^ 8)) (offset + 4)
      (v / 2 ^ 16 % 2 ^ 8)

abbrev pub set_base_1 : ℕ → ℕ → Mem → Mem
set_base_1 offset v m =
    store
      (store
        (store (store (store m (offset + 7) (v % 2 ^ 8)) (offset + 8) (v / 2 ^ 8 % 2 ^ 8))
          (offset + 9) (v / 2 ^ 16 % 2 ^ 8))
        (offset + 10) (v / 2 ^ 24 % 2 ^ 8))
      (offset + 11) (v / 2 ^ 32 % 2 ^ 8)

abbrev pub set_limit : ℕ → ℕ → Mem → Mem
set_limit offset v m =
    let n = store (store m offset (v % 2 ^ 8)) (offset + 1) (v / 2 ^ 8 % 2 ^ 8) in
    store n (offset + 6) (n (offset + 6) / 2 ^ 4 * 2 ^ 4 + v / 2 ^ 16 % 2 ^ 4)

-- With the address of the task state segment.
pub gdt_tss_descriptor : ℕ → ℕ → Gdt → Gdt
gdt_tss_descriptor offset tss k = record k {
  gdt_size = grow k.gdt_size offset 16;
  gdt =
      store
        (set_limit offset tss_bytes
          (set_base_1 offset (tss / 2 ^ 24) (set_base_0 offset tss (memset offset 16 k.gdt))))
        (offset + 5) 0x89;
}

abbrev pub kernel_code_selector : ℕ
kernel_code_selector = 0x28

abbrev pub kernel_data_selector : ℕ
kernel_data_selector = 0x30

abbrev pub user_code_selector : ℕ
user_code_selector = 0x38

abbrev pub user_data_selector : ℕ
user_data_selector = 0x40

abbrev pub tss_selector : ℕ
tss_selector = 0x48

-- With the addresses of `tss` and `interrupt_stack`: the size in the record for `lgdt`, and the
-- state after it.
pub gdt_setup : ℕ → ℕ → Gdt → ℕ × Gdt
gdt_setup tss interrupt_stack k =
    let zeroed = record k { gdt = memset 0 256 k.gdt } in
    let kernel =
      gdt_data_descriptor kernel_data_selector false
        (gdt_code_descriptor kernel_code_selector false zeroed) in
    let user =
      gdt_data_descriptor user_data_selector true
        (gdt_code_descriptor user_code_selector true kernel) in
    let k' = gdt_tss_descriptor tss_selector tss user in
    (
      (k'.gdt_size + 2 ^ 16 - 1) % 2 ^ 16,
      record k' {
        tss = store64 (memset 0 tss_bytes k'.tss) 4 ((interrupt_stack + 0x8000 - 8) % 2 ^ 64);
      },
    )
