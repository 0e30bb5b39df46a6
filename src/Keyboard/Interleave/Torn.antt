-- ===== src/Keyboard/Interleave/Torn.antt =====
-- The interrupt between the read and the write of `avail--`: the count of its character is lost.
use aos_kernel.Base.{
  ℕ, suc, ◌+◌, ◌-◌, ◌%◌, ◌^◌, ◌<◌, ◌≡◌, ◌≢◌, refl, ap₂, ◌∙◌, false, not, ◌&&◌, List, [], ◌∷◌, ◌++◌,
  arith, length, set, get_or-set_self, ◌==◌,
}
use aos_kernel.Keyboard.{Keyboard, buffer_len, write_char}
use aos_kernel.Keyboard.Refine.{window, window-snoc, window-set}
use aos_kernel.Keyboard.Interleave.Inv.{IsBuffer}

-- `avail--` with the interrupt's character `c` stored between its read and its write.
abbrev pub torn_decrement : ℕ → Keyboard → Keyboard
torn_decrement c k = let v = k.avail in record (write_char c k) { avail = v - 1 }

-- What write_char leaves when there is room.
abbrev put : ℕ → Keyboard → Keyboard
put c k = record k {
  buffer = set k.buffer k.writehead c;
  writehead = (k.writehead + 1) % buffer_len;
  avail = (k.avail + 1) % 2 ^ 16;
}

write_char-put : (c : ℕ) (k : Keyboard) → k.readhead ≢ k.writehead → write_char c k ≡ put c k
unfolding write_char
write_char-put c k ne =
    let free : (k.readhead == k.writehead) && not (k.avail == 0) ≡ false = ground arith in rw free

-- With 1 to 498 unread characters in the buffer and one held by kgetc, such an interrupt stores
-- its character `c` where no reader finds it: `avail` counts the old ones only. The next
-- character, `d`, makes `c` readable, and is hidden in turn.
pub write_char-torn_decrement :
    (c d : ℕ) (k : Keyboard) (n : ℕ)
    → IsBuffer k n 1
    → 0 < n
    → n < 499
    → let t = torn_decrement c k in
      let u = write_char d t in
      (window t.buffer t.readhead t.avail ≡ window k.buffer k.readhead n)
      × (window u.buffer u.readhead u.avail ≡ window k.buffer k.readhead n ++ (c ∷ []))
      × (u.avail ≡ suc n)
      × (u.writehead ≡ (k.readhead + suc (suc n)) % buffer_len)
write_char-torn_decrement c d k n b pos small =
    let r : ℕ = k.readhead in
    let w : ℕ = k.writehead in
    let h : w ≡ (r + n) % buffer_len = b.heads in
    let l : r < buffer_len = b.read_in in
    let v : k.avail - 1 ≡ n = omega (arith, b.counted) in
    let one : List ℕ = set k.buffer w c in
    let w2 : ℕ = (w + 1) % buffer_len in
    let two : List ℕ = set one w2 d in
    let n1 : (n + 1) % 2 ^ 16 ≡ suc n = omega arith in
    let first : write_char c k ≡ put c k = write_char-put c k (λ e. omega arith) in
    let t : Keyboard = record (put c k) { avail = n } in
    let second : write_char d t ≡ put d t = write_char-put d t (λ e. omega arith) in
    let inside : w < length k.buffer = omega (arith, b.storage) in
    rw (first, v, second, n1)
      (
        window-set k.buffer r n 0 w c l (omega arith) (omega arith),
        window-set one r (suc n) 0 w2 d l (omega arith) (omega arith)
            ∙ window-snoc one r n l
            ∙ ap₂ (λ q x. q ++ (x ∷ []))
                (window-set k.buffer r n 0 w c l (omega arith) (omega arith))
                (rw (← h) (get_or-set_self k.buffer w c 0 inside)),
        refl,
        omega arith,
      )
