-- ===== src/Stdlib/Strings.antt =====
-- stdlib/mystring.c over memory. Each loop that looks for a terminator takes fuel, and is `none`
-- where that runs out: a string needs one round more than it has characters. Indices are plain numbers: an
-- array never wraps round the address space.
pub mod Laws
pub mod Words
pub mod Pieces
mod Tests
use aos_kernel.Base.{
  ℕ, zero, suc, ◌+◌, Option, none, some, List, [], ◌∷◌, ◌++◌, ◌||◌, ◌==◌, if◌then◌else◌,
}
use aos_kernel.Memory.{Mem, store}

-- The index of the first zero byte.
pub strlen_loop : ℕ → ℕ → ℕ → Mem → Option ℕ
strlen_loop zero str i m = none
strlen_loop (suc fuel) str i m =
    let more = strlen_loop fuel str (i + 1) m in if m (str + i) == 0 then some i else more

-- It counts the terminator.
pub strlen : ℕ → ℕ → Mem → Option ℕ
strlen fuel str m = elim (strlen_loop fuel str 0 m) [ none ↦ none | some i ↦ some (i + 1) ]

-- 0 for equal strings, 1 for others.
pub strcmp_loop : ℕ → ℕ → ℕ → ℕ → Mem → Option ℕ
strcmp_loop zero str1 str2 i m = none
strcmp_loop (suc fuel) str1 str2 i m =
    let a = m (str1 + i) in
    let b = m (str2 + i) in
    let more = strcmp_loop fuel str1 str2 (i + 1) m in
    if a == 0 || b == 0 then some (if a == b then 0 else 1) else if a == b then more else some 1

pub my_strcmp : ℕ → ℕ → ℕ → Mem → Option ℕ
my_strcmp fuel str1 str2 m = strcmp_loop fuel str1 str2 0 m

-- The terminator goes one place behind the end of the copied bytes: `i++` comes first.
pub strcpy_loop : ℕ → ℕ → ℕ → ℕ → Mem → Option Mem
strcpy_loop zero buf str i m = none
strcpy_loop (suc fuel) buf str i m =
    let more = strcpy_loop fuel buf str (i + 1) (store m (buf + i) (m (str + i))) in
    if m (str + i) == 0 then some (store m (buf + (i + 1)) 0) else more

pub strcpy : ℕ → ℕ → ℕ → Mem → Option Mem
strcpy fuel buf str m = strcpy_loop fuel buf str 0 m

-- The `for` loop of words with `left` rounds to go: the pointers stored through `out[j++]`, in
-- order, and the memory after it. The array `out` is the caller's, and does not overlap `in`.
pub words_loop : ℕ → ℕ → ℕ → Mem → List ℕ × Mem
words_loop zero str i m = ([], m)
words_loop (suc left) str i m =
    let sep = m (str + i) == 0x20 || m (str + i) == 0x0a in
    let (out, m') = words_loop left str (i + 1) (if sep then store m (str + i) 0 else m) in
    (if sep then (str + (i + 1)) ∷ out else out, m')

-- `out[0], out[1], …` as far as words writes them, and the memory with the separators zeroed.
pub words : ℕ → ℕ → Mem → Option (List ℕ × Mem)
words fuel str m = elim (strlen fuel str m) [
  | none ↦ none
  | some len ↦ let (out, m') = words_loop len str 0 m in some (str ∷ out, m')
]
