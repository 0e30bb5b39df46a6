-- ===== src/Keyboard/Interleave.antt =====
-- kgetc interrupted: the reader's statements one by one, with the keyboard interrupt between them.
-- The handler itself is not interrupted. A statement is one step; what a compiler does inside of one
-- is left out, but for the read and the write of `avail--`, which Torn splits.
pub mod Inv
pub mod Fifo
pub mod Progress
pub mod Overrun
pub mod Torn
mod Tests
use aos_kernel.Base.{
  ℕ, ◌+◌, ◌-◌, ◌%◌, ◌≡◌, Bool, true, false, not, ◌&&◌, List, [], ◌∷◌, ◌++◌, ◌==◌, if◌then◌else◌,
  get_or, set,
}
use aos_kernel.Keyboard.{Keyboard, buffer_len, write_char}

-- Where the reader stands in kgetc, with its local variable `c`.
pub data Pc : Type 0 where
  waiting : Pc
  awake : Pc
  fetched : ℕ → Pc
  advanced : ℕ → Pc
  cleared : ℕ → Pc

-- The shared globals and the reader; the characters that write_char has stored and those that
-- kgetc has returned so far, in order.
pub record System : Type 0 where
  pub keyboard : Keyboard
  pub pc : Pc
  pub stored : List ℕ
  pub returned : List ℕ

-- The test by which write_char drops a character.
abbrev pub is_full : Keyboard → Bool
is_full k = (k.readhead == k.writehead) && not (k.avail == 0)

-- `buffer[readhead++] = 0;`
abbrev pub clear_slot : Keyboard → Keyboard
clear_slot k = record k { buffer = set k.buffer k.readhead 0; readhead = k.readhead + 1 }

-- `readhead = readhead % BUFFER_LEN;`
abbrev pub wrap_head : Keyboard → Keyboard
wrap_head k = record k { readhead = k.readhead % buffer_len }

pub data Step : System → System → Type 0 where
  wake :
      {s : System}
      → s.pc ≡ waiting
      → (s.keyboard.avail == 0) ≡ false
      → Step s (record s { pc = awake })
  fetch :
      {s : System}
      → s.pc ≡ awake
      → Step s (record s { pc = fetched (get_or s.keyboard.buffer s.keyboard.readhead 0) })
  clear :
      {s : System} (c : ℕ)
      → s.pc ≡ fetched c
      → Step s (record s { pc = advanced c; keyboard = clear_slot s.keyboard })
  wrap :
      {s : System} (c : ℕ)
      → s.pc ≡ advanced c
      → Step s (record s { pc = cleared c; keyboard = wrap_head s.keyboard })
  count :
      {s : System} (c : ℕ)
      → s.pc ≡ cleared c
      → Step s (record s {
        pc = waiting;
        keyboard = record s.keyboard { avail = s.keyboard.avail - 1 };
        returned = s.returned ++ (c ∷ []);
      })
  interrupt :
      {s : System} (c : ℕ)
      → Step s (record s {
        keyboard = write_char c s.keyboard;
        stored = if is_full s.keyboard then s.stored else s.stored ++ (c ∷ []);
      })

pub data Reach (s : System) : System → Type 0 where
  here : Reach s s
  next : {t u : System} → Reach s t → Step t u → Reach s u

-- All of the array is unread, and `readhead` stands behind its end, where the test for a full
-- buffer does not hold: the next character overwrites the first unread one.
abbrev pub overruns : Keyboard → Bool
overruns k = (k.readhead == buffer_len) && (k.avail == buffer_len + 1)

-- No interrupt comes at such a moment of the run.
abbrev pub CalmStep : {s t : System} → Step s t → Type 0
CalmStep (interrupt {s} c) = overruns s.keyboard ≡ false
CalmStep _ = Unit {0}

abbrev pub Calm : {s t : System} → Reach s t → Type 0
Calm here = Unit {0}
Calm (next r st) = Calm r × CalmStep st

-- All steps of the run are the reader's.
abbrev pub OwnStep : {s t : System} → Step s t → Type 0
OwnStep (interrupt c) = ⊥
OwnStep _ = Unit {0}

abbrev pub Own : {s t : System} → Reach s t → Type 0
Own here = Unit {0}
Own (next r st) = Own r × OwnStep st
