-- ===== src/Paging/Tables/Space/Store.antt =====
-- The memory of a user program, through the page walk: a store in it keeps the space of user pages,
-- and changes no other byte of the program.
use aos_kernel.Base.{
  ℕ, ◌+◌, ◌/◌, ◌%◌, ◌<◌, ◌≡◌, ◌≢◌, refl, sym, ap, subst, ◌∙◌, inl, inr, true, false, Option, none,
  some, List, arith, ==_refl, ==_of_ne, if◌then◌else◌,
}
use aos_kernel.Memory.{Mem, store}
use aos_kernel.Paging.Pte.{Pte}
use aos_kernel.Paging.Pool.{Pool}
use aos_kernel.Paging.Pool.Chain.{IsChain-same, SameLinks-outside, SameOutside}
use aos_kernel.Paging.Tables.{next_table, Outcome, done, fault}
use aos_kernel.Paging.Tables.Walk.{walk}
use aos_kernel.Paging.Tables.Map.Laws.{page_of}
use aos_kernel.Paging.Tables.Space.{user_end, Within, Inside}
use aos_kernel.Paging.Tables.Space.Frame.{Same, Within-aligned, Within-Same, walk-Same, IsTree-Same}
use aos_kernel.Paging.Tables.Space.Change.{eq_or_ne}
use aos_kernel.Paging.Tables.Space.Isolation.{frames-Differ, frame_inside, frame_apart}
use aos_kernel.Paging.Tables.Space.Laws.{IsSpace, page_entry, other_page}

-- Where the byte of a mapped page is, in the direct map.
abbrev pub place : ℕ → Pte → Pool → ℕ
place a e k = next_table e + k.hhdm + a % 4096

-- The byte at an address, by the entry of its page.
abbrev pub byte_by : ℕ → Pool → Option Pte → Option ℕ
byte_by a k none = none
byte_by a k (some e) = some (k.mem (place a e k))

-- A byte of the program.
abbrev pub user_byte : ℕ → ℕ → Pool → Option ℕ
user_byte root a k = byte_by a k (page_entry root a k)

-- A store of the kernel at an address of the program; without the page, it is a page fault.
abbrev pub user_store : ℕ → ℕ → ℕ → Pool → Outcome Pool
user_store root a b k = elim (page_entry root a k) [
  | none ↦ fault
  | some e ↦ done (record k { mem = store k.mem (place a e k) b })
]

-- A change within the frame of a page.
module _ (root a : ℕ) (k : Pool) (fs : List ℕ) (e : Pte) (m' : Mem) (low : a < user_end)
    (s : IsSpace root k fs) (at : page_entry root a k ≡ some e)
    (inside : SameOutside (next_table e + k.hhdm) k.mem m') where
  abbrev pub changed : Pool
  changed = record k { mem = m' }

  in_tree : Inside k.hhdm 4 root k.mem (next_table e + k.hhdm)
  in_tree = frame_inside k.hhdm 4 root k.mem (page_of a) e (omega arith) at

  frame_al : (next_table e + k.hhdm) % 4096 ≡ 0
  frame_al = Within-aligned k.hhdm true 4 root k.mem (next_table e + k.hhdm) s.tree in_tree

  tables-Same : Same k.hhdm 4 root k.mem m'
  tables-Same q x y lo hi =
      let al = Within-aligned k.hhdm false 4 root k.mem q s.tree x in
      let al' = frame_al in
      let ne : q ≢ next_table e + k.hhdm = λ h.
        frame_apart k.hhdm 4 root k.mem (page_of a) e (omega arith) at s.tree
          (subst (Within k.hhdm false 4 root k.mem) h x) in
      inside y (omega arith)

  pub changed-IsSpace : IsSpace root changed fs
  changed-IsSpace = record {
    pool = record {
      chain =
          IsChain-same k.mem m' k.free_list fs
            (SameLinks-outside (next_table e + k.hhdm) k.hhdm k.mem m' fs frame_al
              (s.free (next_table e + k.hhdm) in_tree) s.pool.in_map inside)
            s.pool.chain;
      in_map = s.pool.in_map;
      distinct = s.pool.distinct;
      map_aligned = s.pool.map_aligned;
      map_in = s.pool.map_in;
    };
    high = s.high;
    tree = IsTree-Same k.hhdm 4 root k.mem m' s.tree tables-Same;
    free = λ q x. s.free q (Within-Same k.hhdm true 4 root k.mem m' q s.tree tables-Same x);
  }

  pub changed_entry : (b : ℕ) → b < user_end → page_entry root b changed ≡ page_entry root b k
  changed_entry b l = walk-Same k.hhdm (page_of b) 4 root k.mem m' (omega arith) s.tree tables-Same

-- Two addresses of the program have two places.
places_differ :
    (root a b : ℕ) (k : Pool) (fs : List ℕ) (e e' : Pte)
    → IsSpace root k fs
    → a < user_end
    → b < user_end
    → a ≢ b
    → page_entry root a k ≡ some e
    → page_entry root b k ≡ some e'
    → place b e' k ≢ place a e k
places_differ root a b k fs e e' s la lb ne wa wb = elim (eq_or_ne (a / 4096) (b / 4096)) [
  | inl h ↦
      (let p : page_of a ≡ page_of b = omega arith in
        let same : e ≡ e' = some_inj (sym wa ∙ ap (λ c. walk k.hhdm c 4 root k.mem) p ∙ wb) in
        let frames : next_table e ≡ next_table e' = ap next_table same in λ q. omega arith)
  | inr far ↦
      (let frames =
          frames-Differ k.hhdm 4 root k.mem (page_of a) (page_of b) e e' (omega arith) (omega arith)
            s.tree (other_page a b la lb far) wa wb in
        λ q. omega arith)
]
  where
    some_inj : {x y : Pte} → some x ≡ some y → x ≡ y
    some_inj h = cc

-- What a store to a mapped page does.
pub record IsStored (root a v : ℕ) (k : Pool) (fs : List ℕ) (result : Outcome Pool) : Type 0 where
  pub state : Pool
  pub returns : result ≡ done state
  pub space : IsSpace root state fs
  pub entries : (b : ℕ) → b < user_end → page_entry root b state ≡ page_entry root b k
  pub stored : user_byte root a state ≡ some v
  pub others : (b : ℕ) → b < user_end → a ≢ b → user_byte root b state ≡ user_byte root b k

other_byte :
    (root a v b : ℕ) (k : Pool) (fs : List ℕ) (e : Pte)
    → IsSpace root k fs
    → a < user_end
    → b < user_end
    → a ≢ b
    → page_entry root a k ≡ some e
    → (o : Option Pte) → page_entry root b k ≡ o
    → byte_by b (record k { mem = store k.mem (place a e k) v }) o ≡ byte_by b k o
other_byte root a v b k fs e s la lb ne w none wb = refl
other_byte root a v b k fs e s la lb ne w (some e') wb =
    let far = places_differ root a b k fs e e' s la lb ne w wb in
    ap (λ t. some (if t then v else k.mem (place b e' k)))
      (==_of_ne (place b e' k) (place a e k) far)

pub user_store-IsStored :
    (root a v : ℕ) (k : Pool) (fs : List ℕ) (e : Pte)
    → IsSpace root k fs
    → a < user_end
    → page_entry root a k ≡ some e
    → IsStored root a v k fs (user_store root a v k)
user_store-IsStored root a v k fs e s low w =
    let p = place a e k in
    let m' = store k.mem p v in
    let inside : SameOutside (next_table e + k.hhdm) k.mem m' = λ x out. ground arith in
    let entries = changed_entry root a k fs e m' low s w inside in
    record {
      state = record k { mem = m' };
      returns =
          ap
            (λ o. elim o [
              | none ↦ fault
              | some d ↦ done (record k { mem = store k.mem (place a d k) v })
            ])
            w;
      space = changed-IsSpace root a k fs e m' low s w inside;
      entries = entries;
      stored =
          ap (byte_by a (record k { mem = m' })) (entries a low ∙ w)
          ∙ ap (λ t. some (if t then v else k.mem p)) (==_refl p);
      others = λ b l ne.
          ap (byte_by b (record k { mem = m' })) (entries b l)
          ∙ other_byte root a v b k fs e s low l ne w (page_entry root b k) refl;
    }
