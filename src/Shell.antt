-- ===== src/Shell.antt =====
-- From the keyboard to a program: getline of stdlib/myio.c, the loop of shell/shell.c, and the
-- exec system call of kernel/idt.c up to the choice of the module.
pub mod Line
pub mod Exec
mod Tests
use aos_kernel.Base.{
  ℕ, zero, suc, ◌+◌, ◌-◌, ◌^◌, ◌&&◌, Option, none, some, List, [], ◌∷◌, leb, ltb, ◌==◌,
  if◌then◌else◌,
}
use aos_kernel.Memory.{Mem, store}
use aos_kernel.Stdlib.Strings.{strlen, strcpy}
use aos_kernel.Stdlib.Malloc.{Arena, malloc}
use aos_kernel.Print.Digits.{◌>>=◌}
use aos_kernel.Interrupts.Syscalls.{syscall_read}
use aos_kernel.Programs.{check_mod}

-- How getline ends: it waits for a character, it returns, or it comes to its end, where there is
-- no `return`; with the memory and the characters not read.
pub data Got : Type 0 where
  waits : Got
  returned : Mem → List ℕ → Got
  unreturned : Mem → List ℕ → Got

-- The loop of getline with `254 - i` as its first argument after the addresses: of the local
-- `curr`, into which my_read reads one character, and of the line. The echo is left out.
pub getline_loop : ℕ → ℕ → ℕ → ℕ → List ℕ → Mem → Got
getline_loop curr p zero i input m = unreturned (store m (p + 254) 0) input
getline_loop curr p (suc left) i input m = elim (syscall_read 0 curr 1 input m) [
  | none ↦ waits
  | some (_, m', rest) ↦
      let m'' = store m' (p + i) (m' curr) in
      let more = getline_loop curr p left (i + 1) rest m'' in
      if m' curr == 0x0a then returned (store m'' (p + (i + 1)) 0) rest else more
]

-- The line, the allocator behind it, and the end of the loop.
pub getline : ℕ → Arena → List ℕ → Mem → ℕ × Arena × Got
getline curr arena input m =
    let (p, arena') = malloc 255 arena in (p, arena', getline_loop curr p 254 0 input m)

abbrev pub copy_len : ℕ
copy_len = 20

-- `char copy[20] = { 0 };`
abbrev pub clear_copy : ℕ → Mem → Mem
clear_copy copy m x = if leb copy x && ltb x (copy + copy_len) then 0 else m x

-- The beginning of `nr == 3` in syscall_handler: what check_mod says of the copied name, with
-- the memory behind the copy. On 0 the handler goes on to execute_mod and does not come back.
pub exec : ℕ → ℕ → List ℕ → ℕ → Mem → Option (ℕ × Mem)
exec fuel copy modules name m = do
  m' ← strcpy fuel copy name (clear_copy copy m)
  result ← check_mod fuel modules copy m'
  some (result, m')

-- How a round of the shell's loop ends.
pub data Round : Type 0 where
  waiting : Round
  stuck : Round
  executes : Mem → Round
  not_found : Arena → Mem → List ℕ → Round

-- `line[strlen(line) - 2] = '\0'`
pub strip : ℕ → ℕ → Mem → Option Mem
strip fuel p m = do len ← strlen fuel p m; some (store m (p + (len - 2)) 0)

-- Behind getline. `copy` is the kernel's.
pub run_line : ℕ → ℕ → List ℕ → ℕ → Arena → List ℕ → Mem → Round
run_line fuel copy modules p arena rest m =
    elim (strip fuel p m >>= λ m'. exec fuel copy modules p m') [
      | none ↦ stuck
      | some (result, m') ↦ if result == 0 then executes m' else not_found arena m' rest
    ]

-- One round of the shell. A getline that ends without a `return` gives C no line to go on with.
pub shell_round : ℕ → ℕ → ℕ → List ℕ → Arena → List ℕ → Mem → Round
shell_round fuel curr copy modules arena input m =
    let (p, arena', got) = getline curr arena input m in
    elim got [
      | waits ↦ waiting
      | returned m' rest ↦ run_line fuel copy modules p arena' rest m'
      | unreturned m' rest ↦ stuck
    ]
