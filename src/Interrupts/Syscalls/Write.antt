-- ===== src/Interrupts/Syscalls/Write.antt =====
-- What syscall_write puts on the screen.
use aos_kernel.Base.{
  ℕ, ◌+◌, ◌%◌, ◌^◌, ◌<◌, ◌≡◌, refl, ap₂, true, false, not, ◌&&◌, ◌||◌, List, [], ◌∷◌, arith, length,
  ◌==◌,
}
use aos_kernel.Memory.{Mem}
use aos_kernel.Memory.Text.{IsString}
use aos_kernel.Terminal.{Term, put_text}
use aos_kernel.Interrupts.Syscalls.{bytes_at, syscall_write}

bytes_at-string : (m : Mem) (a : ℕ) (s : List ℕ) → IsString m a s → bytes_at m a (length s) ≡ s
unfolding bytes_at
bytes_at-string m a [] h = refl
bytes_at-string m a (c ∷ s) (e, ne, rest) = ap₂ (λ b t. b ∷ t) e (bytes_at-string m (a + 1) s rest)

-- syscall_write of a string of less than 2 GiB to descriptor 1 or 2 puts its characters on the
-- screen one by one, in order, without its terminator, and returns its length.
pub syscall_write-text :
    (fd buf : ℕ) (s : List ℕ) (m : Mem) (t : Term)
    → (fd == 1 || fd == 2) ≡ true
    → IsString m buf s
    → length s < 2 ^ 31
    → syscall_write fd buf (length s) m t ≡ (length s, put_text s t)
unfolding syscall_write
syscall_write-text fd buf s m t h string small =
    let low : length s % 2 ^ 32 ≡ length s = omega arith in
    let allowed : (not (fd == 1) && not (fd == 2)) ≡ false = ground arith in
    rw (allowed, low, bytes_at-string m buf s string) refl
