-- ===== src/Paging/Pte/Tests.antt =====
-- The word of a concrete entry.
use aos_kernel.Base.{◌≡◌, refl, true, false}
use aos_kernel.Paging.Pte.{Pte, encode}

abbrev user_page : Pte
user_page = record {
  present = true;
  writable = true;
  user = true;
  write_through = false;
  cache_disable = false;
  accessed = false;
  dirty = false;
  page_size = false;
  unused = 0;
  address = 0x1234;
  no_execute = true;
}

user_page_word : encode user_page ≡ 0x8000000001234007
unfolding encode
user_page_word = refl
