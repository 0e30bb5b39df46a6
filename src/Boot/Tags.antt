-- ===== src/Boot/Tags.antt =====
-- The search for a tag.
use aos_kernel.Base.{
  ℕ, zero, suc, ◌+◌, ◌<◌, ◌≡◌, ◌≢◌, refl, some, false, List, [], ◌∷◌, arith, length, ◌==◌,
  if◌then◌else◌,
}
use aos_kernel.Memory.{Mem}
use aos_kernel.Memory.Word.{load64}
use aos_kernel.Boot.{find_tag_loop, find_tag}

-- A tag in the list: its address and its identifier.
abbrev pub Tag : Type 0
Tag = ℕ × ℕ

-- The tags stand linked in memory from the address `a` on, and the last one's link is NULL.
abbrev pub IsTags : Mem → ℕ → List Tag → Type 0
IsTags m a [] = a ≡ 0
IsTags m a (t ∷ ts) = (a ≡ t.0) × (a ≢ 0) × (load64 m a ≡ t.1) × IsTags m (load64 m (a + 8)) ts

-- The address of the first tag with an identifier, or 0.
abbrev pub first : ℕ → List Tag → ℕ
first id [] = 0
first id (t ∷ ts) = if t.1 == id then t.0 else first id ts

find_tag_loop-first :
    (fuel a id : ℕ) (m : Mem) (ts : List Tag)
    → IsTags m a ts
    → length ts < fuel
    → find_tag_loop fuel a id m ≡ some (first id ts)
unfolding find_tag_loop
find_tag_loop-first zero a id m ts h l = absurd (omega arith)
find_tag_loop-first (suc fuel) a id m [] h l = rw h refl
find_tag_loop-first (suc fuel) a id m ((b, i) ∷ ts) (e, nz, is, h) l =
    let set : (a == 0) ≡ false = ground arith in
    let rest = find_tag_loop-first fuel (load64 m (a + 8)) id m ts h (omega arith) in
    rw (set, is, rest, e) (ground arith)

-- On a list of tags that ends, find_tag ends, one round behind the last tag at the latest: it
-- returns the first tag with the identifier, and NULL if there is none.
pub find_tag-first :
    (fuel hdr id : ℕ) (m : Mem) (ts : List Tag)
    → IsTags m (load64 m (hdr + 128)) ts
    → length ts < fuel
    → find_tag fuel hdr id m ≡ some (first id ts)
unfolding find_tag
find_tag-first fuel hdr id m ts h l = find_tag_loop-first fuel (load64 m (hdr + 128)) id m ts h l
