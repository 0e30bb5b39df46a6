-- ===== src/Keyboard/Interleave/Overrun.antt =====
-- Two interrupts between `buffer[readhead++] = 0` and the wrap of `readhead`.
use aos_kernel.Base.{
  ℕ, ◌≡◌, refl, ◌∙◌, Bool, some, List, [], ◌∷◌, ◌++◌, ap, arith, length, length-set, get_or, set,
  get_or-set_self,
}
use mathlib.Core.List.{append_assoc}
use aos_kernel.Keyboard.{Keyboard, buffer_len, write_char, kgetc}
use aos_kernel.Keyboard.Refine.{window}
use aos_kernel.Keyboard.Interleave.{
  waiting, System, wake, fetch, clear, wrap, count, interrupt, Reach, here, next,
}
use aos_kernel.Keyboard.Interleave.Fifo.{start}

-- All of the array is unread, and its last slot is the next to read.
abbrev pub full_at_end : List ℕ → Bool → Bool → Keyboard
full_at_end buffer shiftl shiftr = record {
  readhead = 499;
  writehead = 499;
  buffer = buffer;
  shiftl = shiftl;
  shiftr = shiftr;
  avail = 500;
}

-- A run of one kgetc in which `c` and then `d` come, and what the next kgetc gives.
pub record IsOverrun (k : Keyboard) (c d : ℕ) : Type 0 where
  pub state : System
  pub run : Reach (start k) state
  pub ends : state.pc ≡ waiting
  pub returned : state.returned ≡ get_or k.buffer 499 0 ∷ []
  pub both : state.stored ≡ window k.buffer k.readhead k.avail ++ (c ∷ d ∷ [])
  pub rest : List ℕ
  pub order : state.stored ≡ get_or k.buffer 499 0 ∷ get_or k.buffer 0 0 ∷ rest
  pub counted : state.keyboard.avail ≡ 501
  pub after : Keyboard
  pub gets : kgetc state.keyboard ≡ some (d, after)

-- Of a full buffer whose next character is in the last slot, kgetc reads that one; two interrupts
-- come in it and both store their characters. Then `avail` is 501 for the 500 slots, and the next
-- kgetc returns the second of the two characters in place of the one that was stored next.
pub kgetc-IsOverrun :
    (c d : ℕ) (buffer : List ℕ) (shiftl shiftr : Bool)
    → length buffer ≡ buffer_len
    → IsOverrun (full_at_end buffer shiftl shiftr) c d
unfolding write_char kgetc
kgetc-IsOverrun c d buffer shiftl shiftr h =
    let x : ℕ = get_or buffer 499 0 in
    let two : List ℕ = set (set buffer 499 0) 499 c in
    let left : Keyboard = record (full_at_end (set (set two 0 d) 0 0) shiftl shiftr) {
      readhead = 1;
      writehead = 1;
    } in
    let inside : length two ≡ buffer_len =
      length-set (set buffer 499 0) 499 c ∙ length-set buffer 499 0 ∙ h in
    record {
      state = _;
      run =
          next
            (next
              (next
                (next (next (next (next here (wake refl refl)) (fetch refl)) (clear x refl))
                  (interrupt c))
                (interrupt d))
              (wrap x refl))
            (count x refl);
      ends = refl;
      returned = refl;
      both = append_assoc (window buffer 499 500) (c ∷ []) (d ∷ []);
      rest = _;
      order = refl;
      counted = refl;
      after = left;
      gets = ap (λ v. some (v, left)) (get_or-set_self two 0 d 0 (omega (arith, inside)));
    }
