-- ===== src/Keyboard/Interleave/Inv.antt =====
-- The invariant of kgetc and the keyboard interrupt, kept by every step.
use aos_kernel.Base.{
  ℕ, suc, ◌+◌, ◌-◌, ◌%◌, ◌^◌, ◌≤◌, ◌<◌, ◌≡◌, refl, sym, ap, ap₂, subst, ◌∙◌, true, false, inl, inr,
  List, [], ◌∷◌, ◌++◌, arith, length, length-set, get_or, set, get_or-set_self, get_or-set_ne, ◌==◌,
  if◌then◌else◌, Bool-cases,
}
use mathlib.Core.List.{append_assoc}
use aos_kernel.Keyboard.{Keyboard, buffer_len, write_char}
use aos_kernel.Keyboard.Refine.{window, window-snoc, window-set, rest_of_window}
use aos_kernel.Keyboard.Interleave.{
  Pc, waiting, awake, fetched, advanced, cleared, System, is_full, clear_slot, wrap_head, Step,
  wake, fetch, clear, wrap, count, overruns, CalmStep, Calm, interrupt, Reach, here, next,
}

-- The reader holds a character that `avail` still counts.
abbrev pub held : Pc → List ℕ
held (advanced c) = c ∷ []
held (cleared c) = c ∷ []
held _ = []

-- `n` characters are unread in the array.
pub record IsBuffer (k : Keyboard) (n over : ℕ) : Type 0 where
  pub storage : length k.buffer ≡ buffer_len
  pub read_in : k.readhead < buffer_len
  pub unread_in : n ≤ buffer_len
  pub heads : k.writehead ≡ (k.readhead + n) % buffer_len
  pub counted : k.avail ≡ n + over

-- What the reader has found out so far is still true.
abbrev pub Knows : Keyboard → ℕ → Pc → Type 0
Knows k n awake = 0 < n
Knows k n (fetched c) = (0 < n) × (get_or k.buffer k.readhead 0 ≡ c)
Knows k n _ = Unit {0}

-- The buffer with `readhead` inside of the array.
abbrev pub head : Pc → ℕ → ℕ
head (advanced c) i = i % buffer_len
head _ i = i

abbrev pub settled : Pc → Keyboard → Keyboard
settled p k = record k { readhead = head p k.readhead }

-- How far `readhead` can go.
abbrev pub Heads : Pc → Keyboard → Type 0
Heads (advanced c) k = k.readhead ≤ buffer_len
Heads _ k = Unit {0}

-- The invariant, with the reader at `p`.
pub record InvAt (s : System) (p : Pc) : Type 0 where
  pub unread : ℕ
  pub buffer : IsBuffer (settled p s.keyboard) unread (length (held p))
  pub knows : Knows s.keyboard unread p
  pub head_in : Heads p s.keyboard
  pub history :
      s.stored
      ≡ s.returned ++ (held p ++ window s.keyboard.buffer (settled p s.keyboard).readhead unread)

abbrev pub Inv : System → Type 0
Inv s = InvAt s s.pc

-- What write_char leaves when it does not drop the character.
abbrev pub stored_state : ℕ → Keyboard → Keyboard
stored_state c k = record k {
  buffer = set k.buffer k.writehead c;
  writehead = (k.writehead + 1) % buffer_len;
  avail = (k.avail + 1) % 2 ^ 16;
}

pub write_char-stored :
    (c : ℕ) (k : Keyboard) → is_full k ≡ false → write_char c k ≡ stored_state c k
unfolding write_char
write_char-stored c k free = rw free

-- With room for it, the character joins the unread ones at the end.
module _ (c : ℕ) {k : Keyboard} {n over : ℕ} (b : IsBuffer k n over) (small : over ≤ 1)
    (room : n < buffer_len) where
  stored-IsBuffer : IsBuffer (stored_state c k) (suc n) over
  stored-IsBuffer = record {
    storage = length-set k.buffer k.writehead c ∙ b.storage;
    read_in = b.read_in;
    unread_in = omega arith;
    heads = omega (arith, b.heads);
    counted = omega (arith, b.counted);
  }

  stored-window :
      window (stored_state c k).buffer k.readhead (suc n) ≡ window k.buffer k.readhead n ++ (c ∷ [])
  stored-window =
      let new = set k.buffer k.writehead c in
      window-snoc new k.readhead n b.read_in
      ∙ ap₂ (λ q x. q ++ (x ∷ []))
          (window-set k.buffer k.readhead n 0 k.writehead c b.read_in (omega arith)
            (omega (arith, b.heads)))
          (rw (← b.heads)
            (get_or-set_self k.buffer k.writehead c 0 (omega (arith, b.storage, b.heads))))

stored-Knows :
    (c : ℕ) (k : Keyboard) (n over : ℕ) (p : Pc)
    → IsBuffer (settled p k) n over
    → n < buffer_len
    → Knows k n p
    → Knows (stored_state c k) (suc n) p
stored-Knows c k n over waiting b room h = tt
stored-Knows c k n over awake b room h = omega arith
stored-Knows c k n over (fetched x) b room (pos, e) =
    (omega arith, get_or-set_ne k.buffer k.writehead k.readhead c 0 (omega (arith, b.heads)) ∙ e)
stored-Knows c k n over (advanced x) b room h = tt
stored-Knows c k n over (cleared x) b room h = tt

stored-Heads : (c : ℕ) (k : Keyboard) (p : Pc) → Heads p k → Heads p (stored_state c k)
stored-Heads c k waiting h = tt
stored-Heads c k awake h = tt
stored-Heads c k (fetched x) h = tt
stored-Heads c k (advanced x) h = h
stored-Heads c k (cleared x) h = tt

settled_room :
    (k : Keyboard) (n over : ℕ) → IsBuffer k n over → over ≤ 1 → is_full k ≡ false → n < buffer_len
settled_room k n over b small free =
    let h = b.heads in let a = b.counted in let i = b.unread_in in let r = b.read_in in ground arith

-- A character is stored in the array only where there is room, but for an overrun.
stored_room :
    (k : Keyboard) (n : ℕ) (p : Pc)
    → IsBuffer (settled p k) n (length (held p))
    → Heads p k
    → is_full k ≡ false
    → overruns k ≡ false
    → n < buffer_len
stored_room k n waiting b h free calm = settled_room k n 0 b (omega arith) free
stored_room k n awake b h free calm = settled_room k n 0 b (omega arith) free
stored_room k n (fetched c) b h free calm = settled_room k n 0 b (omega arith) free
stored_room k n (cleared c) b h free calm = settled_room k n 1 b (omega arith) free
stored_room k n (advanced c) b h free calm =
    let e = b.heads in let a = b.counted in let i = b.unread_in in ground arith

write_char-full : (c : ℕ) (k : Keyboard) → is_full k ≡ true → write_char c k ≡ k
unfolding write_char
write_char-full c k full = rw full

pub length-held : (p : Pc) → length (held p) ≤ 1
length-held waiting = omega arith
length-held awake = omega arith
length-held (fetched c) = omega arith
length-held (advanced c) = omega arith
length-held (cleared c) = omega arith

-- The steps of the reader.
wake-Inv :
    {s : System}
    → InvAt s waiting
    → (s.keyboard.avail == 0) ≡ false
    → InvAt (record s { pc = awake }) awake
wake-Inv i some_left = record {
  unread = i.unread;
  buffer = i.buffer;
  knows = let a = i.buffer.counted in ground arith;
  head_in = tt;
  history = i.history;
}

fetch-Inv :
    {s : System}
    → InvAt s awake
    → let c = get_or s.keyboard.buffer s.keyboard.readhead 0 in
      InvAt (record s { pc = fetched c }) (fetched c)
fetch-Inv i = record {
  unread = i.unread;
  buffer = i.buffer;
  knows = (i.knows, refl);
  head_in = tt;
  history = i.history;
}

clear-Inv :
    {s : System} (c : ℕ)
    → InvAt s (fetched c)
    → InvAt (record s { pc = advanced c; keyboard = clear_slot s.keyboard }) (advanced c)
clear-Inv {s} c i =
    let k = s.keyboard in
    let b = i.buffer in
    let more : i.unread ≡ suc (i.unread - 1) = omega (arith, i.knows.0) in
    record {
      unread = i.unread - 1;
      buffer = record {
        storage = length-set k.buffer k.readhead 0 ∙ b.storage;
        read_in = omega arith;
        unread_in = omega (arith, b.unread_in);
        heads = omega (arith, b.heads, b.read_in, i.knows.0);
        counted = omega (arith, b.counted, i.knows.0);
      };
      knows = tt;
      head_in = omega (arith, b.read_in);
      history =
          i.history
          ∙ ap (λ q. s.returned ++ q)
              (ap (window k.buffer k.readhead) more
                ∙ ap₂ ◌∷◌ i.knows.1 (
                    sym (
                      rest_of_window k.buffer k.readhead (i.unread - 1) b.read_in
                        (omega (arith, b.unread_in, i.knows.0)))));
    }

wrap-Inv :
    {s : System} (c : ℕ)
    → InvAt s (advanced c)
    → InvAt (record s { pc = cleared c; keyboard = wrap_head s.keyboard }) (cleared c)
wrap-Inv c i = record {
  unread = i.unread;
  buffer = i.buffer;
  knows = tt;
  head_in = tt;
  history = i.history;
}

count-Inv :
    {s : System} (c : ℕ)
    → InvAt s (cleared c)
    → InvAt
        (record s {
          pc = waiting;
          keyboard = record s.keyboard { avail = s.keyboard.avail - 1 };
          returned = s.returned ++ (c ∷ []);
        })
        waiting
count-Inv {s} c i = record {
  unread = i.unread;
  buffer = record {
    storage = i.buffer.storage;
    read_in = i.buffer.read_in;
    unread_in = i.buffer.unread_in;
    heads = i.buffer.heads;
    counted = omega (arith, i.buffer.counted);
  };
  knows = tt;
  head_in = tt;
  history = i.history ∙ sym (append_assoc s.returned (c ∷ []) _);
}

interrupt-Inv :
    {s : System} (c : ℕ)
    → Inv s
    → overruns s.keyboard ≡ false
    → Inv (record s {
      keyboard = write_char c s.keyboard;
      stored = if is_full s.keyboard then s.stored else s.stored ++ (c ∷ []);
    })
interrupt-Inv {s} c i calm = elim (Bool-cases (is_full s.keyboard)) [
  | inl full ↦ rw (full, write_char-full c s.keyboard full) i
  | inr free ↦
      let k = s.keyboard in
      let small = length-held s.pc in
      let room = stored_room k i.unread s.pc i.buffer i.head_in free calm in
      let unread = window k.buffer (head s.pc k.readhead) i.unread in
      rw (free, write_char-stored c k free)
        (record {
          unread = suc i.unread;
          buffer = stored-IsBuffer c i.buffer small room;
          knows = stored-Knows c k i.unread (length (held s.pc)) s.pc i.buffer room i.knows;
          head_in = stored-Heads c k s.pc i.head_in;
          history =
              ap (λ q. q ++ (c ∷ [])) i.history
              ∙ append_assoc s.returned (held s.pc ++ unread) (c ∷ [])
              ∙ ap (λ q. s.returned ++ q)
                  (append_assoc (held s.pc) unread (c ∷ [])
                    ∙ ap (λ q. held s.pc ++ q) (sym (stored-window c i.buffer small room)));
        })
]

-- Every step keeps the invariant, but for an overrun.
pub Step-Inv : {s t : System} (st : Step s t) → CalmStep st → Inv s → Inv t
Step-Inv (wake {s} e some_left) calm i = wake-Inv (subst (λ p. InvAt s p) e i) some_left
Step-Inv (fetch {s} e) calm i = fetch-Inv (subst (λ p. InvAt s p) e i)
Step-Inv (clear {s} c e) calm i = clear-Inv c (subst (λ p. InvAt s p) e i)
Step-Inv (wrap {s} c e) calm i = wrap-Inv c (subst (λ p. InvAt s p) e i)
Step-Inv (count {s} c e) calm i = count-Inv c (subst (λ p. InvAt s p) e i)
Step-Inv (interrupt {s} c) calm i = interrupt-Inv c i calm

pub Reach-Inv : {s t : System} (r : Reach s t) → Calm r → Inv s → Inv t
Reach-Inv here calm i = i
Reach-Inv (next r st) calm i = Step-Inv st calm.1 (Reach-Inv r calm.0 i)
