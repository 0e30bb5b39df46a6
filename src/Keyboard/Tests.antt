-- ===== src/Keyboard/Tests.antt =====
-- Runs of the keyboard code, and its theorems at concrete states.
use aos_kernel.Base.{◌≡◌, refl, true, false, List, [], ◌∷◌, arith, replicate}
use aos_kernel.Keyboard.{Keyboard, buffer_len, shift, is_shift, key_char, write_char, irq1_handler}
use aos_kernel.Keyboard.Inv.{IsValid}
use aos_kernel.Keyboard.Refine.{contents, enqueue, Event, put, get, run, run_queue, run_refines}
use aos_kernel.Keyboard.Irq.{irq1_handler-enqueue}

-- The state at boot.
abbrev boot : Keyboard
boot = record {
  readhead = 0;
  writehead = 0;
  buffer = replicate buffer_len 0;
  shiftl = false;
  shiftr = false;
  avail = 0;
}

boot-IsValid : IsValid boot
boot-IsValid = record {
  storage = refl;
  read_in = omega arith;
  avail_in = omega arith;
  heads = refl;
}

-- Left shift, `h`, the release of both, `i`.
typed_hi :
    contents (
      irq1_handler 0x17
        (irq1_handler 0xaa (irq1_handler 0xa3 (irq1_handler 0x23 (irq1_handler 0x2a boot)))))
    ≡ b'H' ∷ b'i' ∷ []
unfolding irq1_handler shift is_shift key_char write_char
typed_hi = refl

-- Shift turns `[` into `;`, not into `{`.
shifted_bracket : key_char 0x1a true ≡ b';'
unfolding key_char
shifted_bracket = refl

abbrev script : List Event
script = put 1 ∷ get ∷ get ∷ put 2 ∷ put 3 ∷ get ∷ []

run_refines_example : run boot script ≡ run_queue [] script
run_refines_example = run_refines script boot boot-IsValid

irq1_handler-enqueue_example :
    contents (irq1_handler 0x23 boot) ≡ enqueue (key_char 0x23 (is_shift boot)) []
irq1_handler-enqueue_example = irq1_handler-enqueue 0x23 boot-IsValid
