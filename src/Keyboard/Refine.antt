-- ===== src/Keyboard/Refine.antt =====
-- The character buffer against its specification: a queue of at most 500 characters.

use aos_kernel.Base.{
  ℕ, zero, suc, ◌+◌, ◌-◌, ◌%◌, ◌≤◌, ◌<◌, ◌≡◌, refl, sym, ap, ap₂, ◌∙◌, true, false, Option, none,
  some, List, [], ◌∷◌, ◌++◌, not, ◌&&◌, ◌^◌, inl, inr, arith, length, get_or, set, get_or-set_self,
  get_or-set_ne, ◌==◌, if◌then◌else◌, Bool-cases,
}
use aos_kernel.Keyboard.{Keyboard, buffer_len, write_char, kgetc}
use aos_kernel.Keyboard.Inv.{IsValid, write_char-IsValid, kgetc-IsValid}

-- The `n` characters from index `h` on, going round at the end of the array.
abbrev pub window : List ℕ → ℕ → ℕ → List ℕ
window buf h zero = []
window buf h (suc n) = get_or buf h 0 ∷ window buf ((h + 1) % buffer_len) n

-- The abstract view: the unread characters, oldest first.
abbrev pub contents : Keyboard → List ℕ
contents k = window k.buffer k.readhead k.avail

length-window : (buf : List ℕ) (h n : ℕ) → length (window buf h n) ≡ n
length-window buf h zero = refl
length-window buf h (suc n) = ap suc (length-window buf ((h + 1) % buffer_len) n)

pub window-snoc :
    (buf : List ℕ) (h n : ℕ)
    → h < buffer_len
    → window buf h (suc n) ≡ window buf h n ++ (get_or buf ((h + n) % buffer_len) 0 ∷ [])
window-snoc buf h zero l = ap (λ i. get_or buf i 0 ∷ []) (omega arith)
window-snoc buf h (suc n) l = ap (◌∷◌ (get_or buf h 0)) (
    window-snoc buf ((h + 1) % buffer_len) n (omega arith)
    ∙ ap (λ i. window buf ((h + 1) % buffer_len) n ++ (get_or buf i 0 ∷ [])) (omega arith))

-- A write to an index that the window does not reach leaves it alone.
pub window-set :
    (buf : List ℕ) (h n d w c : ℕ)
    → h < buffer_len
    → n + d < buffer_len
    → w ≡ (h + n + d) % buffer_len
    → window (set buf w c) h n ≡ window buf h n
window-set buf h zero d w c l b e = refl
window-set buf h (suc n) d w c l b e =
    ap₂ ◌∷◌ (get_or-set_ne buf w h c 0 (omega arith))
      (window-set buf ((h + 1) % buffer_len) n d w c (omega arith) (omega arith) (omega arith))

-- The specification of `write_char`: a character joins at the end unless the queue is full.
abbrev pub enqueue : ℕ → List ℕ → List ℕ
enqueue c q = if length q == buffer_len then q else q ++ (c ∷ [])

module _ (c : ℕ) {k : Keyboard} (v : IsValid k) where
  full : (k.avail == buffer_len) ≡ true → contents (write_char c k) ≡ contents k
  unfolding write_char
  full e =
      let stuck : (k.readhead == k.writehead) && not (k.avail == 0) ≡ true = ground arith in
      rw stuck

  room : (k.avail == buffer_len) ≡ false → contents (write_char c k) ≡ contents k ++ (c ∷ [])
  unfolding write_char
  room e =
      let free : (k.readhead == k.writehead) && not (k.avail == 0) ≡ false = ground arith in
      let n : (k.avail + 1) % 2 ^ 16 ≡ suc k.avail = ground arith in
      let small : k.avail < buffer_len = ground arith in
      let new = set k.buffer k.writehead c in
      rw free (
        ap (window new k.readhead) n
        ∙ window-snoc new k.readhead k.avail v.read_in
        ∙ ap₂ (λ q x. q ++ (x ∷ []))
            (window-set k.buffer k.readhead k.avail 0 k.writehead c v.read_in (omega arith)
              (omega arith))
            (rw (← v.heads) (get_or-set_self k.buffer k.writehead c 0 (omega arith))))

  -- On a valid buffer `write_char` is `enqueue` on the unread characters: it appends the
  -- character, or drops it when 500 are waiting.
  pub write_char-enqueue : contents (write_char c k) ≡ enqueue c (contents k)
  write_char-enqueue = elim (Bool-cases (k.avail == buffer_len)) [
    | inl e ↦ rw (length-window k.buffer k.readhead k.avail, e) (full e)
    | inr e ↦ rw (length-window k.buffer k.readhead k.avail, e) (room e)
  ]

-- The specification of `kgetc`: it waits on an empty queue, and takes the front otherwise.
abbrev pub dequeue : List ℕ → Option (ℕ × List ℕ)
dequeue [] = none
dequeue (c ∷ q) = some (c, q)

abbrev pub view : Option (ℕ × Keyboard) → Option (ℕ × List ℕ)
view none = none
view (some (c, k)) = some (c, contents k)

-- What `kgetc` leaves in the array is read as before.
pub rest_of_window :
    (buf : List ℕ) (h n : ℕ)
    → h < buffer_len
    → suc n ≤ buffer_len
    → window (set buf h 0) ((h + 1) % buffer_len) n ≡ window buf ((h + 1) % buffer_len) n
rest_of_window buf h n l b =
    window-set buf ((h + 1) % buffer_len) n (buffer_len - suc n) h 0 (omega arith) (omega arith)
      (omega arith)

-- On a valid buffer `kgetc` is `dequeue` on the unread characters: it waits exactly when there
-- is none, and otherwise returns the oldest and leaves the others in order.
pub kgetc-dequeue : {k : Keyboard} → IsValid k → view (kgetc k) ≡ dequeue (contents k)
unfolding kgetc
kgetc-dequeue {k} v = elim (Bool-cases (k.avail == 0)) [
  | inl e ↦ let none_left : k.avail ≡ 0 = ground arith in rw (e, none_left)
  | inr e ↦
      let more : k.avail ≡ suc (k.avail - 1) = ground arith in
      rw e (
        ap (λ q. some (get_or k.buffer k.readhead 0, q))
          (rest_of_window k.buffer k.readhead (k.avail - 1) v.read_in (omega arith))
        ∙ ap (λ n. dequeue (window k.buffer k.readhead n)) (sym more))
]

-- What happens to the buffer, in order: the interrupt stores a character, or a reader tries.
pub data Event : Type 0 where
  put : ℕ → Event
  get : Event

-- What each reader gets: a character, or `none` while it has to wait.
pub run : Keyboard → List Event → List (Option ℕ)
run k [] = []
run k (put c ∷ es) = run (write_char c k) es
run k (get ∷ es) = elim (kgetc k) [ none ↦ none ∷ run k es | some (c, k') ↦ some c ∷ run k' es ]

pub run_queue : List ℕ → List Event → List (Option ℕ)
run_queue q [] = []
run_queue q (put c ∷ es) = run_queue (enqueue c q) es
run_queue [] (get ∷ es) = none ∷ run_queue [] es
run_queue (c ∷ q) (get ∷ es) = some c ∷ run_queue q es

abbrev RunRefines : List Event → Type 0
RunRefines es = (k : Keyboard) → IsValid k → run k es ≡ run_queue (contents k) es

run-get :
    {k : Keyboard} (es : List Event) (o : Option (ℕ × Keyboard)) (q : List ℕ)
    → RunRefines es
    → IsValid k
    → kgetc k ≡ o
    → contents k ≡ q
    → view o ≡ dequeue q
    → run k (get ∷ es) ≡ run_queue q (get ∷ es)
unfolding run run_queue
run-get {k} es none [] ih v e e' d =
    rw (e, run) (ap (◌∷◌ none) (ih k v ∙ ap (λ q. run_queue q es) e'))
run-get es none (c ∷ q) ih v e e' d = cc
run-get es (some (c, k')) [] ih v e e' d = cc
run-get es (some (c, k')) (c' ∷ q) ih v e e' d =
    rw (e, run) (ap₂ ◌∷◌ (cc) (ih k' (kgetc-IsValid v e) ∙ ap (λ q. run_queue q es) (cc)))

-- From a valid buffer, any sequence of stores and reads gives the readers what the queue of at
-- most 500 characters gives them.
pub run_refines :
    (es : List Event) (k : Keyboard) → IsValid k → run k es ≡ run_queue (contents k) es
unfolding run run_queue
run_refines [] k v = refl
run_refines (put c ∷ es) k v =
    run_refines es (write_char c k) (write_char-IsValid c v)
    ∙ ap (λ q. run_queue q es) (write_char-enqueue c v)
run_refines (get ∷ es) k v =
    run-get es (kgetc k) (contents k) (run_refines es) v refl refl (kgetc-dequeue v)
