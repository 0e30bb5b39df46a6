-- ===== src/Stdlib/Bytes/Laws.antt =====
-- What memset and memcpy leave at each address.
use aos_kernel.Base.{
  ℕ, zero, suc, ◌+◌, ◌-◌, ◌^◌, ◌≤◌, ◌≡◌, ap, inl, inr, Bool-cases, ◌∙◌, ◌⊎◌, ◌&&◌, arith, ltb, leb,
  ◌==◌, if◌then◌else◌,
}
use aos_kernel.Memory.{Mem, store}
use aos_kernel.Stdlib.Bytes.{add64, memset_loop, memset, memcpy_loop, memcpy}

memset_loop_at :
    (left start progress : ℕ) (m : Mem) (x : ℕ)
    → start + progress + left ≤ 2 ^ 64
    → memset_loop left start progress m x
      ≡ (if leb (start + progress) x && ltb x (start + progress + left) then 0 else m x)
unfolding memset_loop
memset_loop_at zero start progress m x h = ground arith
memset_loop_at (suc left) start progress m x h =
    memset_loop_at left start (progress + 1) (store m (add64 start progress) 0) x (omega arith)
    ∙ ground arith

-- A memset whose range does not wrap round the address space zeroes exactly that range.
pub memset_lem :
    (start size : ℕ) (m : Mem) (x : ℕ)
    → start + size ≤ 2 ^ 64
    → memset start size m x ≡ (if leb start x && ltb x (start + size) then 0 else m x)
unfolding memset
memset_lem start size m x h = memset_loop_at size start 0 m x (omega arith) ∙ ground arith

-- Copying goes upwards, so it is safe where the source stands above the destination, or ends
-- below it.
abbrev pub Copyable : ℕ → ℕ → ℕ → Type 0
Copyable dest src size = (dest ≤ src) ⊎ (src + size ≤ dest)

-- One round, seen at address `x`.
memcpy_step :
    (left dest src progress : ℕ) (m : Mem) (x : ℕ)
    → dest + progress + suc left ≤ 2 ^ 64
    → src + progress + suc left ≤ 2 ^ 64
    → Copyable dest src (progress + suc left)
    → let n = store m (add64 dest progress) (m (add64 src progress)) in
      (if leb (dest + (progress + 1)) x && ltb x (dest + (progress + 1) + left)
        then n (src + (x - dest))
        else n x)
      ≡ (if leb (dest + progress) x && ltb x (dest + progress + suc left)
          then m (src + (x - dest))
          else m x)
memcpy_step left dest src progress m x h k c =
    let d : add64 dest progress ≡ dest + progress = omega arith in
    let s : add64 src progress ≡ src + progress = omega arith in
    rw (d, s)
      (elim (Bool-cases (x == (dest + progress))) [
        | inl here ↦
            let e : x ≡ dest + progress = ground arith in
            let f : src + (x - dest) ≡ src + progress = omega arith in
            rw (e) (ground (arith, ap m f))
        | inr other ↦ ground arith
      ])

memcpy_loop_at :
    (left dest src progress : ℕ) (m : Mem) (x : ℕ)
    → dest + progress + left ≤ 2 ^ 64
    → src + progress + left ≤ 2 ^ 64
    → Copyable dest src (progress + left)
    → memcpy_loop left dest src progress m x ≡ (
        if leb (dest + progress) x && ltb x (dest + progress + left)
        then m (src + (x - dest))
        else m x)
unfolding memcpy_loop
memcpy_loop_at zero dest src progress m x h k c = ground arith
memcpy_loop_at (suc left) dest src progress m x h k c =
    memcpy_loop_at left dest src (progress + 1)
      (store m (add64 dest progress) (m (add64 src progress))) x (omega arith) (omega arith)
      (ground arith)
    ∙ memcpy_step left dest src progress m x h k c

-- A memcpy whose ranges do not wrap, and whose source does not start below an overlapping
-- destination, copies each byte as it was before the call and changes nothing else.
pub memcpy_lem :
    (dest src size : ℕ) (m : Mem) (x : ℕ)
    → dest + size ≤ 2 ^ 64
    → src + size ≤ 2 ^ 64
    → Copyable dest src size
    → memcpy dest src size m x
      ≡ (if leb dest x && ltb x (dest + size) then m (src + (x - dest)) else m x)
unfolding memcpy
memcpy_lem dest src size m x h k c =
    memcpy_loop_at size dest src 0 m x (omega arith) (omega arith) (ground arith) ∙ ground arith
