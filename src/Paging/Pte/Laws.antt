-- ===== src/Paging/Pte/Laws.antt =====
-- A page table entry and its word stand for one another.
use aos_kernel.Base.{ℕ, ◌/◌, ◌%◌, ◌^◌, ◌≤◌, ◌<◌, ◌≡◌, refl, Bool, true, false, arith, ◌==◌, bit}
use aos_kernel.Paging.Pte.{Pte, decode, encode}

bit-le : (b : Bool) → bit b ≤ 1
bit-le true = omega arith
bit-le false = omega arith

bit_back : (b : Bool) (n : ℕ) → n ≡ bit b → (n == 1) ≡ b
bit_back true n e = ground arith
bit_back false n e = ground arith

-- The two numbers of an entry fit their fields.
abbrev pub Fits : Pte → Type 0
Fits e = (e.unused < 2 ^ 4) × (e.address < 2 ^ 51)

pub encode-lt : (e : Pte) → Fits e → encode e < 2 ^ 64
unfolding encode
encode-lt e h = omega (arith, bit-le)

pub decode-Fits : (w : ℕ) → Fits (decode w)
unfolding decode
decode-Fits w = omega arith

-- Where each field stands in the word.
module _ (e : Pte) (h : Fits e) where
  present_place : encode e / 2 ^ 0 % 2 ≡ bit e.present
  unfolding encode
  present_place = omega (arith, bit-le)

  writable_place : encode e / 2 ^ 1 % 2 ≡ bit e.writable
  unfolding encode
  writable_place = omega (arith, bit-le)

  user_place : encode e / 2 ^ 2 % 2 ≡ bit e.user
  unfolding encode
  user_place = omega (arith, bit-le)

  write_through_place : encode e / 2 ^ 3 % 2 ≡ bit e.write_through
  unfolding encode
  write_through_place = omega (arith, bit-le)

  cache_disable_place : encode e / 2 ^ 4 % 2 ≡ bit e.cache_disable
  unfolding encode
  cache_disable_place = omega (arith, bit-le)

  accessed_place : encode e / 2 ^ 5 % 2 ≡ bit e.accessed
  unfolding encode
  accessed_place = omega (arith, bit-le)

  dirty_place : encode e / 2 ^ 6 % 2 ≡ bit e.dirty
  unfolding encode
  dirty_place = omega (arith, bit-le)

  page_size_place : encode e / 2 ^ 7 % 2 ≡ bit e.page_size
  unfolding encode
  page_size_place = omega (arith, bit-le)

  no_execute_place : encode e / 2 ^ 63 % 2 ≡ bit e.no_execute
  unfolding encode
  no_execute_place = omega (arith, bit-le)

  unused_place : encode e / 2 ^ 8 % 2 ^ 4 ≡ e.unused
  unfolding encode
  unused_place = omega (arith, bit-le)

  address_place : encode e / 2 ^ 12 % 2 ^ 51 ≡ e.address
  unfolding encode
  address_place = omega (arith, bit-le)

  -- Reading back an entry whose numbers fit their fields gives the entry.
  pub decode-encode : decode (encode e) ≡ e
  unfolding decode
  decode-encode = λ i. record {
    present = bit_back e.present _ present_place i;
    writable = bit_back e.writable _ writable_place i;
    user = bit_back e.user _ user_place i;
    write_through = bit_back e.write_through _ write_through_place i;
    cache_disable = bit_back e.cache_disable _ cache_disable_place i;
    accessed = bit_back e.accessed _ accessed_place i;
    dirty = bit_back e.dirty _ dirty_place i;
    page_size = bit_back e.page_size _ page_size_place i;
    unused = unused_place i;
    address = address_place i;
    no_execute = bit_back e.no_execute _ no_execute_place i;
  }

bit_test : (n : ℕ) → n < 2 → bit (n == 1) ≡ n
bit_test n h = ground arith

-- Writing back the fields of a word changes nothing.
pub encode-decode : (w : ℕ) → w < 2 ^ 64 → encode (decode w) ≡ w
unfolding encode decode
encode-decode w h = omega (arith, bit_test)

pub decode-zero : (decode 0).present ≡ false
unfolding decode
decode-zero = refl
