-- ===== src/Boot/Report.antt =====
-- memmap_print and print_mods of kernel/boot.c, as the text that they print.
pub mod Lines
use aos_kernel.Base.{
  ℕ, zero, suc, ◌+◌, ◌*◌, ◌%◌, ◌^◌, Option, none, some, List, [], ◌∷◌, ◌++◌, ◌==◌, if◌then◌else◌,
}
use aos_kernel.Memory.{Mem}
use aos_kernel.Memory.Word.{load64}
use aos_kernel.Paging.Pool.{Region}
use aos_kernel.Print.Digits.{◌>>=◌, print_s}
use aos_kernel.Print.Format.{ptr, str, int, kprintf}
use aos_kernel.Interrupts.Syscalls.{bytes_at}
use aos_kernel.Boot.{memmap_id, hhdm_id, entry, find_tag}

abbrev pub usable_text : List ℕ
usable_text =
    b'U' ∷ b's' ∷ b'a' ∷ b'b' ∷ b'l' ∷ b'e' ∷ b' ' ∷ b'M' ∷ b'e' ∷ b'm' ∷ b'o' ∷ b'r' ∷ b'y' ∷ b':'
    ∷ 0x0a ∷ []

abbrev pub region_format : List ℕ
region_format =
    b' ' ∷ b' ' ∷ b'%' ∷ b'p' ∷ b'-' ∷ b'%' ∷ b'p' ∷ b' ' ∷ b'm' ∷ b'a' ∷ b'p' ∷ b'p' ∷ b'e' ∷ b'd'
    ∷ b' ' ∷ b'a' ∷ b't' ∷ b' ' ∷ b'%' ∷ b'p' ∷ b'-' ∷ b'%' ∷ b'p' ∷ 0x0a ∷ []

abbrev pub modules_text : List ℕ
modules_text = b'M' ∷ b'o' ∷ b'd' ∷ b'u' ∷ b'l' ∷ b'e' ∷ b's' ∷ b':' ∷ 0x0a ∷ []

abbrev pub module_format : List ℕ
module_format =
    b' ' ∷ b' ' ∷ b'%' ∷ b's' ∷ b' ' ∷ b'0' ∷ b'x' ∷ b'%' ∷ b'x' ∷ b'-' ∷ b'0' ∷ b'x' ∷ b'%' ∷ b'x'
    ∷ 0x0a ∷ []

-- The format for a region. A 64-bit sum wraps.
abbrev pub region_line : ℕ → Region → Option (List ℕ)
region_line hhdm r = kprintf region_format (
    ptr r.base
    ∷ ptr ((r.base + r.length) % 2 ^ 64)
    ∷ ptr ((hhdm + r.base) % 2 ^ 64)
    ∷ ptr ((hhdm + r.base + r.length) % 2 ^ 64)
    ∷ [])

-- The loop over the memory map, with `left` entries to go from the address `a` on.
pub region_lines : ℕ → ℕ → ℕ → Mem → Option (List ℕ)
region_lines zero a hhdm m = some []
region_lines (suc left) a hhdm m =
    let r = entry m a in
    let rest = region_lines left (a + 24) hhdm m in
    if r.kind == 1
    then (region_line hhdm r >>= λ line. rest >>= λ out. some (line ++ out))
    else rest

-- How the function ends: `faulted` is a read through a null pointer, `endless` a list of tags
-- without an end or a string without its terminator.
pub data Report : Type 0 where
  halted : Report
  faulted : Report
  endless : Report
  printed : List ℕ → Report

abbrev pub report : List ℕ → Option (List ℕ) → Report
report heading none = endless
report heading (some out) = printed (heading ++ out)

-- `hhdm->addr` is read before the test for NULL, so that the second test never halts.
pub memmap_print : ℕ → ℕ → Mem → Report
memmap_print fuel hdr m = elim (find_tag fuel hdr memmap_id m) [
  | none ↦ endless
  | some tag ↦ elim (find_tag fuel hdr hhdm_id m) [
    | none ↦ endless
    | some hhdm ↦
        if hhdm == 0
        then faulted
        else if tag == 0
        then halted
        else report usable_text
            (region_lines (load64 m (tag + 16)) (tag + 24) (load64 m (hhdm + 16)) m)
  ]
]

-- The identifier of the modules' tag.
abbrev pub modules_id : ℕ
modules_id = 0x4b6fe466aade04ce

-- A module is its first and its last address and a string of up to 128 bytes. An address handed
-- to `%x` is cut by kprintf.
abbrev pub module_line : ℕ → Mem → Option (List ℕ)
module_line a m = do
  name ← print_s (bytes_at m (a + 16) 128)
  kprintf module_format
      (str name ∷ int (load64 m a % 2 ^ 32) ∷ int (load64 m (a + 8) % 2 ^ 32) ∷ [])

-- The loop over the modules.
pub module_lines : ℕ → ℕ → Mem → Option (List ℕ)
module_lines zero a m = some []
module_lines (suc left) a m =
    let rest = module_lines left (a + 144) m in
    module_line a m >>= λ line. rest >>= λ out. some (line ++ out)

-- The tag is not tested for NULL.
pub print_mods : ℕ → ℕ → Mem → Report
print_mods fuel hdr m = elim (find_tag fuel hdr modules_id m) [
  | none ↦ endless
  | some tag ↦
      if tag == 0
      then faulted
      else report modules_text (module_lines (load64 m (tag + 16)) (tag + 24) m)
]
