-- ===== src/Interrupts/Syscalls.antt =====
-- syscall_read and syscall_write of kernel/idt.c. A `char` is its byte, an `int` its 32 bits.
pub mod Read
pub mod Write
pub mod Heap
mod Tests
use aos_kernel.Base.{
  ℕ, zero, suc, ◌+◌, ◌-◌, ◌%◌, ◌^◌, Bool, true, false, not, ◌&&◌, Option, none, some, List, [], ◌∷◌,
  ltb, ◌==◌, if◌then◌else◌,
}
use aos_kernel.Memory.{Mem, store}
use aos_kernel.Terminal.{Term, put_text}

-- -1 as an `int`.
abbrev pub minus_one : ℕ
minus_one = 2 ^ 32 - 1

-- The loop of syscall_read on the characters that kgetc gives one after the other; `none` is a
-- reader still waiting for the next. A backspace at the beginning takes `accum` to -1, which is
-- not below `n` as a size_t, and ends the loop.
pub read_loop : ℕ → ℕ → ℕ → List ℕ → Mem → Option (Mem × List ℕ)
read_loop buf n accum [] m = if ltb accum n then none else some (m, [])
read_loop buf n accum (c ∷ input) m =
    let m' = store m (buf + accum) c in
    let back = read_loop buf n (accum - 1) input m' in
    let next = read_loop buf n (accum + 1) input m' in
    if not (ltb accum n)
    then some (m, c ∷ input)
    else if c == 0x08
    then (if accum == 0 then some (m', input) else back)
    else next

-- The result, the memory, and the characters not read.
pub syscall_read : ℕ → ℕ → ℕ → List ℕ → Mem → Option (ℕ × Mem × List ℕ)
syscall_read fd buf n input m =
    if not (fd == 0)
    then some (minus_one, m, input)
    else elim (read_loop buf n 0 input m) [ none ↦ none | some r ↦ some (n % 2 ^ 32, r.0, r.1) ]

-- The `n` bytes from an address on.
pub bytes_at : Mem → ℕ → ℕ → List ℕ
bytes_at m a zero = []
bytes_at m a (suc n) = m a ∷ bytes_at m (a + 1) n

-- Each `kprintf("%c", buf[i])` puts one character on the screen.
pub syscall_write : ℕ → ℕ → ℕ → Mem → Term → ℕ × Term
syscall_write fd buf n m t =
    if not (fd == 1) && not (fd == 2)
    then (minus_one, t)
    else (n % 2 ^ 32, put_text (bytes_at m buf n) t)
