-- ===== src/Keyboard/Interleave/Fifo.antt =====
-- No such interleaving loses, repeats or reorders a character that was stored.
use aos_kernel.Base.{ℕ, ◌+◌, ◌≤◌, ◌≡◌, refl, true, ◌⊎◌, [], ◌++◌, arith, length}
use aos_kernel.Keyboard.{Keyboard, buffer_len}
use aos_kernel.Keyboard.Inv.{IsValid}
use aos_kernel.Keyboard.Refine.{window}
use aos_kernel.Keyboard.Interleave.{
  Pc, waiting, awake, fetched, advanced, cleared, System, is_full, Reach, Calm,
}
use aos_kernel.Keyboard.Interleave.Inv.{held, settled, Heads, IsBuffer, Inv, Reach-Inv}

-- The reader waits, and what is unread counts as stored.
abbrev pub start : Keyboard → System
start k = record {
  keyboard = k;
  pc = waiting;
  stored = window k.buffer k.readhead k.avail;
  returned = [];
}

pub start-Inv : {k : Keyboard} → IsValid k → Inv (start k)
start-Inv {k} v = record {
  unread = k.avail;
  buffer = record {
    storage = v.storage;
    read_in = v.read_in;
    unread_in = v.avail_in;
    heads = v.heads;
    counted = omega arith;
  };
  knows = tt;
  head_in = tt;
  history = refl;
}

-- Interrupts may come between any statements of kgetc, but for those that overrun the buffer: at the
-- end of the array, between `buffer[readhead++] = 0` and the wrap of `readhead`, when all 500
-- characters are unread. In these runs from a valid buffer on, the characters that kgetc has
-- returned, the one that it holds and the unread ones are together the characters that were stored,
-- in their order, and `avail` counts the last two.
pub Reach-fifo :
    {k : Keyboard} {s : System}
    → IsValid k
    → (r : Reach (start k) s) → Calm r
    → (n : ℕ) × (s.stored
        ≡ s.returned
          ++ (held s.pc ++ window s.keyboard.buffer (settled s.pc s.keyboard).readhead n))
      × (s.keyboard.avail ≡ n + length (held s.pc))
      × (n ≤ buffer_len)
Reach-fifo v r calm =
    let i = Reach-Inv r calm (start-Inv v) in
    (i.unread, i.history, i.buffer.counted, i.buffer.unread_in)

drops_settled :
    (k : Keyboard) (n over : ℕ)
    → IsBuffer k n over
    → over ≤ 1
    → is_full k ≡ true
    → (k.avail ≡ n + over) × ((n ≡ buffer_len) ⊎ ((n ≡ 0) × (over ≡ 1)))
drops_settled k n over b small full =
    let h = b.heads in let a = b.counted in let u = b.unread_in in let r = b.read_in in ground arith

-- With `readhead` behind the end of the array, no character is dropped.
drops :
    (k : Keyboard) (n : ℕ) (p : Pc)
    → IsBuffer (settled p k) n (length (held p))
    → Heads p k
    → is_full k ≡ true
    → (k.avail ≡ n + length (held p)) × ((n ≡ buffer_len) ⊎ ((n ≡ 0) × (length (held p) ≡ 1)))
drops k n waiting b l full = drops_settled k n 0 b (omega arith) full
drops k n awake b l full = drops_settled k n 0 b (omega arith) full
drops k n (fetched c) b l full = drops_settled k n 0 b (omega arith) full
drops k n (cleared c) b l full = drops_settled k n 1 b (omega arith) full
drops k n (advanced c) b l full =
    let h = b.heads in let a = b.counted in let u = b.unread_in in ground arith

-- In these runs the interrupt drops a character in two cases only: 500 are unread, or none is and
-- kgetc is about to count down for the last one.
pub Reach-drops :
    {k : Keyboard} {s : System}
    → IsValid k
    → (r : Reach (start k) s) → Calm r
    → is_full s.keyboard ≡ true
    → (n : ℕ) × (s.keyboard.avail ≡ n + length (held s.pc))
      × ((n ≡ buffer_len) ⊎ ((n ≡ 0) × (length (held s.pc) ≡ 1)))
Reach-drops {s} v r calm full =
    let i = Reach-Inv r calm (start-Inv v) in
    let (a, cases) = drops s.keyboard i.unread s.pc i.buffer i.head_in full in (i.unread, a, cases)
