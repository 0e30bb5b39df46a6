-- ===== src/Stdlib/Malloc.antt =====
-- malloc of stdlib/mem.c, a bump allocator over pages that it gets by the mmap system call,
-- whose kernel side is `nr == 2` of syscall_handler in kernel/idt.c.
pub mod Blocks
pub mod Overlap
mod Tests
use aos_kernel.Base.{ℕ, ◌+◌, ◌-◌, ◌%◌, ◌^◌, List, [], ◌∷◌, ltb, ◌==◌, if◌then◌else◌}

-- PAGE_SIZE, the same in stdlib/mem.c and in kernel/paging.h.
abbrev pub page_size : ℕ
page_size = 2048

-- The two globals of the allocator, and the kernel's `v_heap`.
pub record Arena : Type 0 where
  pub bump : ℕ
  pub space_remaining : ℕ
  pub v_heap : ℕ

-- ROUND_UP(x, y), in size_t.
abbrev pub round_up : ℕ → ℕ → ℕ
round_up x y = if x % y == 0 then x else (x + (y - x % y)) % 2 ^ 64

-- `mmap(address, loc)` hands neither argument on: the kernel maps at `v_heap` and moves it by
-- one PAGE_SIZE. (The mapping itself is vm_map, whose result the handler drops.)
pub mmap : Arena → ℕ × Arena
mmap a = (a.v_heap, record a { v_heap = (a.v_heap + page_size) % 2 ^ 64 })

-- Take `sz` bytes from the front of the free region.
abbrev pub grab : ℕ → Arena → ℕ × Arena
grab sz a =
    (a.bump, record a { bump = (a.bump + sz) % 2 ^ 64; space_remaining = a.space_remaining - sz })

-- The result is the address, 0 for NULL.
unfoldable pub malloc : ℕ → Arena → ℕ × Arena
unfolding mmap
malloc size a =
    let sz = round_up size 16 in
    if ltb a.space_remaining sz
    then (let rounded_up = round_up sz page_size in
        let (newmem, a') = mmap a in
        if newmem == 0
        then (0, a')
        else grab sz (record a' { bump = newmem; space_remaining = rounded_up }))
    else grab sz a

-- A sequence of requests, with the block that each gets.
pub malloc_all : List ℕ → Arena → List (ℕ × ℕ)
malloc_all [] a = []
malloc_all (size ∷ sizes) a = let (p, a') = malloc size a in (p, size) ∷ malloc_all sizes a'
