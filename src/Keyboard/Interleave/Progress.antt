-- ===== src/Keyboard/Interleave/Progress.antt =====
-- kgetc comes to its end: the reader's own steps, from wherever interrupts have left it.
use aos_kernel.Base.{ℕ, ◌≡◌, refl, subst, false, List, [], ◌∷◌, ◌++◌, get_or, ◌==◌}
use aos_kernel.Keyboard.{Keyboard}
use aos_kernel.Keyboard.Inv.{IsValid}
use aos_kernel.Keyboard.Interleave.{
  Pc, waiting, awake, fetched, advanced, cleared, System, wake, fetch, clear, wrap, count, Reach,
  here, next, Calm, Own,
}
use aos_kernel.Keyboard.Interleave.Inv.{InvAt, Inv, Step-Inv, Reach-Inv}
use aos_kernel.Keyboard.Interleave.Fifo.{start, start-Inv}

-- The reader's own steps from `s` lead out of kgetc with the character that follows those returned
-- before in the order of storing.
pub record IsServed (s : System) : Type 0 where
  pub state : System
  pub run : Reach s state
  pub own : Own run
  pub ends : state.pc ≡ waiting
  pub char : ℕ
  pub rest : List ℕ
  pub order : s.stored ≡ s.returned ++ (char ∷ rest)
  pub gave : state.returned ≡ s.returned ++ (char ∷ [])
  pub kept : state.stored ≡ s.stored

cleared-IsServed : (s : System) (c : ℕ) → s.pc ≡ cleared c → Inv s → IsServed s
cleared-IsServed s c e i = record {
  state = _;
  run = next here (count c e);
  own = (tt, tt);
  ends = refl;
  char = c;
  rest = _;
  order = (subst (λ p. InvAt s p) e i).history;
  gave = refl;
  kept = refl;
}

advanced-IsServed : (s : System) (c : ℕ) → s.pc ≡ advanced c → Inv s → IsServed s
advanced-IsServed s c e i = record {
  state = _;
  run = next (next here (wrap c e)) (count c refl);
  own = ((tt, tt), tt);
  ends = refl;
  char = c;
  rest = _;
  order = (Step-Inv (wrap c e) tt i).history;
  gave = refl;
  kept = refl;
}

fetched-IsServed : (s : System) (c : ℕ) → s.pc ≡ fetched c → Inv s → IsServed s
fetched-IsServed s c e i = record {
  state = _;
  run = next (next (next here (clear c e)) (wrap c refl)) (count c refl);
  own = (((tt, tt), tt), tt);
  ends = refl;
  char = c;
  rest = _;
  order = (Step-Inv (clear c e) tt i).history;
  gave = refl;
  kept = refl;
}

awake-IsServed : (s : System) → s.pc ≡ awake → Inv s → IsServed s
awake-IsServed s e i =
    let c : ℕ = get_or s.keyboard.buffer s.keyboard.readhead 0 in
    let held_by : Inv (record s { pc = fetched c }) = Step-Inv (fetch e) tt i in
    record {
      state = _;
      run = next (next (next (next here (fetch e)) (clear c refl)) (wrap c refl)) (count c refl);
      own = ((((tt, tt), tt), tt), tt);
      ends = refl;
      char = c;
      rest = _;
      order = (Step-Inv (clear c refl) tt held_by).history;
      gave = refl;
      kept = refl;
    }

waiting-IsServed :
    (s : System) → s.pc ≡ waiting → (s.keyboard.avail == 0) ≡ false → Inv s → IsServed s
waiting-IsServed s e some_left i =
    let c : ℕ = get_or s.keyboard.buffer s.keyboard.readhead 0 in
    let up : Inv (record s { pc = awake }) = Step-Inv (wake e some_left) tt i in
    let held_by : Inv (record s { pc = fetched c }) = Step-Inv (fetch refl) tt up in
    record {
      state = _;
      run =
          next
            (next (next (next (next here (wake e some_left)) (fetch refl)) (clear c refl))
              (wrap c refl))
            (count c refl);
      own = (((((tt, tt), tt), tt), tt), tt);
      ends = refl;
      char = c;
      rest = _;
      order = (Step-Inv (clear c refl) tt held_by).history;
      gave = refl;
      kept = refl;
    }

at-IsServed :
    (s : System) (p : Pc)
    → s.pc ≡ p
    → (s.pc ≡ waiting → (s.keyboard.avail == 0) ≡ false)
    → Inv s
    → IsServed s
at-IsServed s waiting e some_left i = waiting-IsServed s e (some_left e) i
at-IsServed s awake e some_left i = awake-IsServed s e i
at-IsServed s (fetched c) e some_left i = fetched-IsServed s c e i
at-IsServed s (advanced c) e some_left i = advanced-IsServed s c e i
at-IsServed s (cleared c) e some_left i = cleared-IsServed s c e i

-- Wherever the reader stands after a run from a valid buffer on without an interrupt that overruns
-- the buffer, unless it waits with `avail` at 0: steps that are all its own end kgetc, store nothing
-- more, and return the character that was stored next behind those returned before.
pub Reach-IsServed :
    {k : Keyboard} {s : System}
    → IsValid k
    → (r : Reach (start k) s) → Calm r
    → (s.pc ≡ waiting → (s.keyboard.avail == 0) ≡ false)
    → IsServed s
Reach-IsServed {s} v r calm some_left =
    at-IsServed s s.pc refl some_left (Reach-Inv r calm (start-Inv v))
