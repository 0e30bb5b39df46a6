-- ===== src/Keyboard/Interleave/Tests.antt =====
-- Runs of the reader with interrupts, and the theorems on it.
use aos_kernel.Base.{
  ℕ, ◌+◌, ◌%◌, ◌≤◌, ◌≡◌, refl, false, ◌⊎◌, [], ◌∷◌, ◌++◌, arith, length, set, replicate,
}
use aos_kernel.Keyboard.{Keyboard, buffer_len, write_char}
use aos_kernel.Keyboard.Inv.{IsValid}
use aos_kernel.Keyboard.Refine.{window}
use aos_kernel.Keyboard.Interleave.{
  advanced, cleared, System, clear_slot, wrap_head, wake, fetch, clear, wrap, interrupt, Reach,
  here, next,
}
use aos_kernel.Keyboard.Interleave.Inv.{held, settled, IsBuffer}
use aos_kernel.Keyboard.Interleave.Fifo.{start, Reach-fifo, Reach-drops}
use aos_kernel.Keyboard.Interleave.Progress.{IsServed, Reach-IsServed}
use aos_kernel.Keyboard.Interleave.Overrun.{full_at_end, IsOverrun, kgetc-IsOverrun}
use aos_kernel.Keyboard.Interleave.Torn.{torn_decrement, write_char-torn_decrement}

-- `h` is waiting in the buffer.
abbrev one : Keyboard
one = record {
  readhead = 0;
  writehead = 1;
  buffer = set (replicate buffer_len 0) 0 b'h';
  shiftl = false;
  shiftr = false;
  avail = 1;
}

one-IsValid : IsValid one
one-IsValid = record { storage = refl; read_in = omega arith; avail_in = omega arith; heads = refl }

-- kgetc has cleared the slot of `h` and not yet counted down.
abbrev held_h : System
held_h = record {
  keyboard = wrap_head (clear_slot one);
  pc = cleared b'h';
  stored = b'h' ∷ [];
  returned = [];
}

abbrev held_h_reached : Reach (start one) held_h
held_h_reached =
    next (next (next (next here (wake refl refl)) (fetch refl)) (clear b'h' refl)) (wrap b'h' refl)

-- An interrupt here drops its character, although the array is empty.
dropped : write_char b'i' held_h.keyboard ≡ held_h.keyboard
unfolding write_char
dropped = refl

-- `i` has come between the read and the clearing of the slot of `h`.
abbrev busy : System
busy = record {
  keyboard = clear_slot (write_char b'i' one);
  pc = advanced b'h';
  stored = b'h' ∷ b'i' ∷ [];
  returned = [];
}

abbrev busy_reached : Reach (start one) busy
busy_reached =
    next (next (next (next here (wake refl refl)) (fetch refl)) (interrupt b'i')) (clear b'h' refl)

Reach-fifo_example :
    (n : ℕ) × (b'h' ∷ b'i' ∷ []
      ≡ [] ++ (b'h' ∷ window busy.keyboard.buffer (settled busy.pc busy.keyboard).readhead n))
    × (busy.keyboard.avail ≡ n + 1)
    × (n ≤ buffer_len)
Reach-fifo_example = Reach-fifo one-IsValid busy_reached ((((tt, tt), tt), refl), tt)

Reach-drops_example :
    (n : ℕ) × (1 ≡ n + length (held held_h.pc))
    × ((n ≡ buffer_len) ⊎ ((n ≡ 0) × (length (held held_h.pc) ≡ 1)))
Reach-drops_example = Reach-drops one-IsValid held_h_reached ((((tt, tt), tt), tt), tt) refl

Reach-IsServed_example : IsServed busy
unfolding write_char
Reach-IsServed_example =
    Reach-IsServed one-IsValid busy_reached ((((tt, tt), tt), refl), tt) (λ e. refl)

kgetc-IsOverrun_example : IsOverrun (full_at_end (replicate buffer_len b'a') false false) b'c' b'd'
kgetc-IsOverrun_example = kgetc-IsOverrun b'c' b'd' (replicate buffer_len b'a') false false refl

-- One character unread, and one held.
abbrev torn : Keyboard
torn = record {
  readhead = 1;
  writehead = 2;
  buffer = set (replicate buffer_len 0) 1 b'o';
  shiftl = false;
  shiftr = false;
  avail = 2;
}

torn-IsBuffer : IsBuffer torn 1 1
torn-IsBuffer = record {
  storage = refl;
  read_in = omega arith;
  unread_in = omega arith;
  heads = refl;
  counted = refl;
}

write_char-torn_decrement_example :
    let t = torn_decrement b'x' torn in
    let u = write_char b'y' t in
    (window t.buffer t.readhead t.avail ≡ window torn.buffer 1 1)
    × (window u.buffer u.readhead u.avail ≡ window torn.buffer 1 1 ++ (b'x' ∷ []))
    × (u.avail ≡ 2)
    × (u.writehead ≡ (1 + 3) % buffer_len)
write_char-torn_decrement_example =
    write_char-torn_decrement b'x' b'y' torn 1 torn-IsBuffer (omega arith) (omega arith)
