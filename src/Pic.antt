-- ===== src/Pic.antt =====
-- pic_init, pic_mask_irq and pic_unmask_irq of kernel/pic.c, as the bytes that they send to the
-- ports of the two interrupt controllers, each with its port; `io_wait` and `sti` send none.
pub mod Masks
mod Tests
use aos_kernel.Base.{
  ℕ, ◌+◌, ◌-◌, ◌*◌, ◌/◌, ◌%◌, ◌^◌, Bool, true, false, List, [], ◌∷◌, ltb, ◌==◌, if◌then◌else◌,
}

abbrev pub pic1_command : ℕ
pic1_command = 0x20

abbrev pub pic1_data : ℕ
pic1_data = 0x21

abbrev pub pic2_command : ℕ
pic2_command = 0xa0

abbrev pub pic2_data : ℕ
pic2_data = 0xa1

-- `1 << num` is set in, or cleared from, a byte.
abbrev pub set_bit : ℕ → ℕ → ℕ
set_bit num mask = if mask / 2 ^ num % 2 == 1 then mask else mask + 2 ^ num

abbrev pub clear_bit : ℕ → ℕ → ℕ
clear_bit num mask = if mask / 2 ^ num % 2 == 1 then mask - 2 ^ num else mask

pub pic_init : List (ℕ × ℕ)
pic_init =
    (pic1_command, 0x11)
    ∷ (pic2_command, 0x11)
    ∷ (pic1_data, 0x20)
    ∷ (pic2_data, 0x28)
    ∷ (pic1_data, 0x04)
    ∷ (pic2_data, 0x02)
    ∷ (pic1_data, 0x01)
    ∷ (pic2_data, 0x01)
    ∷ (pic1_data, 0xff)
    ∷ (pic2_data, 0xff)
    ∷ []

-- `read port` is the byte that the port gives.
pub pic_mask_irq : ℕ → (ℕ → ℕ) → List (ℕ × ℕ)
pic_mask_irq num read =
    if ltb num 8
    then (pic1_data, set_bit num (read pic1_data)) ∷ []
    else if ltb num 16
    then (pic2_data, set_bit (num - 8) (read pic2_data)) ∷ []
    else []

pub pic_unmask_irq : ℕ → (ℕ → ℕ) → List (ℕ × ℕ)
pic_unmask_irq num read =
    if ltb num 8
    then (pic1_data, clear_bit num (read pic1_data)) ∷ []
    else if ltb num 16
    then (pic2_data, clear_bit (num - 8) (read pic2_data)) ∷ []
    else []
