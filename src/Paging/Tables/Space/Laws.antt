-- ===== src/Paging/Tables/Space/Laws.antt =====
-- vm_map on a space of user pages: the invariant that one call leaves to the next, and what it
-- does to the other pages.
use aos_kernel.Base.{
  ℕ, ◌+◌, ◌/◌, ◌%◌, ◌^◌, ◌≤◌, ◌<◌, ◌≡◌, ◌≢◌, refl, sym, ap, subst, ◌∙◌, ◌⊎◌, inl, inr, Bool, true,
  false, not, Option, none, some, List, [], ◌∷◌, ◌++◌, arith, length, length-append,
}
use aos_kernel.Paging.Pte.{Pte}
use aos_kernel.Paging.Pool.{Pool}
use aos_kernel.Paging.Pool.Chain.{IsPool, NotIn, Distinct}
use aos_kernel.Paging.Tables.{next_table, vm_map, Outcome, done}
use aos_kernel.Paging.Tables.Walk.{walk}
use aos_kernel.Paging.Tables.Map.Shape.{In}
use aos_kernel.Paging.Tables.Map.Laws.{page_of, vm_map-IsMapped, vm_map_mapped}
use aos_kernel.Paging.Tables.Space.{user_end, Inside, IsTree, NotFree, Differ}
use aos_kernel.Paging.Tables.Space.Isolation.{frames-Differ}
use aos_kernel.Paging.Tables.Space.Loop.{loop-IsGrown}
use aos_kernel.Paging.Tables.Space.Trail.{tree-AreTables}

-- The pool holds the pages `fs`; the tables of the lower half and the frames that they map form
-- a tree, with each page in one place of it, and none of its pages is free.
pub record IsSpace (root : ℕ) (k : Pool) (fs : List ℕ) : Type 0 where
  pub pool : IsPool k fs
  pub high : 2 ^ 63 ≤ k.hhdm
  pub tree : IsTree k.hhdm 4 root k.mem
  pub free : NotFree k.hhdm 4 root k.mem fs

-- What the page walk finds for the page of an address.
abbrev pub page_entry : ℕ → ℕ → Pool → Option Pte
page_entry root address k = walk k.hhdm (page_of address) 4 root k.mem

-- The entry allows what was asked for.
abbrev pub Permits : Bool → Bool → Bool → Pte → Type 0
Permits user writable executable e =
    (e.present ≡ true) × (e.user ≡ user) × (e.writable ≡ writable) × (e.no_execute ≡ not executable)

-- What vm_map leaves behind, whether the page was mapped or not.
pub record IsExtended (user writable executable : Bool) (root address : ℕ) (k : Pool) (fs : List ℕ)
    (result : Outcome (Bool × Pool)) : Type 0 where
  pub is_new : Bool
  pub state : Pool
  pub returns : result ≡ done (is_new, state)
  pub same_map : state.hhdm ≡ k.hhdm
  pub left : List ℕ
  pub space : IsSpace root state left
  pub used : length fs ≤ length left + 4
  pub entry : Pte
  pub found : page_entry root address state ≡ some entry
  pub before :
      ((is_new ≡ false) × (page_entry root address k ≡ some entry))
      ⊎ ((is_new ≡ true)
          × (page_entry root address k ≡ none)
          × Permits user writable executable entry)
  pub others :
      (b : ℕ)
      → b < user_end
      → Differ (page_of address) (page_of b) 4
      → page_entry root b state ≡ page_entry root b k
  pub isolated :
      (b : ℕ) (e : Pte)
      → b < user_end
      → Differ (page_of address) (page_of b) 4
      → page_entry root b state ≡ some e
      → next_table e ≢ next_table entry
  pub kept :
      (q : ℕ)
      → q % 4096 ≡ 0
      → NotIn q fs
      → ¬ Inside k.hhdm 4 root k.mem q
      → (x : ℕ) → q ≤ x
      → x < q + 4096
      → state.mem x ≡ k.mem x

NotIn-append : (q : ℕ) (xs ys : List ℕ) → NotIn q (xs ++ ys) → NotIn q ys
NotIn-append q [] ys h = h
NotIn-append q (x ∷ xs) ys h = NotIn-append q xs ys h.1

taken_out : (q : ℕ) (xs ys : List ℕ) → Distinct (xs ++ ys) → In q xs → NotIn q ys
taken_out q [] ys d h = elim h [ ]
taken_out q (x ∷ xs) ys d (inl e) = subst (λ a. NotIn a ys) (sym e) (NotIn-append x xs ys d.0)
taken_out q (x ∷ xs) ys d (inr h) = taken_out q xs ys d.1 h

state_of : Pool → Outcome (Bool × Pool) → Pool
state_of k (done r) = r.1
state_of k _ = k

some_inj : {a b : Pte} → some a ≡ some b → a ≡ b
some_inj h = cc

-- Addresses in two pages part at one level of the tables.
pub other_page :
    (a b : ℕ) → a < user_end → b < user_end → a / 4096 ≢ b / 4096 → Differ (page_of a) (page_of b) 4
other_page a b la lb ne = omega arith

module _ (user writable executable : Bool) (root address : ℕ) (k : Pool) (fs : List ℕ)
    (low : address < user_end) (s : IsSpace root k fs) where
  abbrev result : Outcome (Bool × Pool)
  result = vm_map root address user writable executable k

  new_page :
      page_entry root address k ≡ none
      → 4 ≤ length fs
      → IsExtended user writable executable root address k fs result
  unfolding vm_map state_of
  new_page w room =
      let page_low : page_of address < user_end = omega arith in
      let t = tree-AreTables k.hhdm (page_of address) page_low 4 root k.mem fs s.tree s.free in
      let m = vm_map-IsMapped user writable executable root address k fs s.pool s.high t w room in
      let g =
        loop-IsGrown user writable executable (page_of address) page_low 4 root k fs s.pool s.high
          s.tree s.free w room in
      let same : m.state ≡ g.state = ap (state_of k) (sym m.returns ∙ g.returns) in
      let found : walk k.hhdm (page_of address) 4 root g.state.mem ≡ some m.entry =
        subst (λ j. walk k.hhdm (page_of address) 4 root j.mem ≡ some m.entry) same m.found in
      let at = λ (h : ℕ). walk h (page_of address) 4 root g.state.mem in
      record {
        is_new = true;
        state = g.state;
        returns = g.returns;
        same_map = g.same_map;
        left = g.left;
        space = record {
          pool = g.pool;
          high = subst (λ h. 2 ^ 63 ≤ h) (sym g.same_map) s.high;
          tree = subst (λ h. IsTree h 4 root g.state.mem) (sym g.same_map) g.tree;
          free =
              subst (λ h. NotFree h 4 root g.state.mem g.left) (sym g.same_map)
                (λ q x. elim (g.inside q x) [
                  | inl o ↦ NotIn-append q g.taken g.left (subst (NotIn q) g.split (s.free q o))
                  | inr n ↦ taken_out q g.taken g.left (subst Distinct g.split s.pool.distinct) n
                ]);
        };
        used =
            (let l : length fs ≡ length g.taken + length g.left =
                ap length g.split ∙ length-append g.taken g.left in
              omega (arith, g.few));
        entry = m.entry;
        found = ap at g.same_map ∙ found;
        before =
            inr
              (refl, w, (m.leaf.present, m.leaf.user_is, m.leaf.writable_is, m.leaf.no_execute_is));
        others = λ b b_low d.
            ap (λ h. walk h (page_of b) 4 root g.state.mem) g.same_map
            ∙ g.others (page_of b) (omega arith) d;
        isolated = λ b e b_low d h.
            frames-Differ k.hhdm 4 root g.state.mem (page_of address) (page_of b) m.entry e page_low
              (omega arith) g.tree d found
              (sym (ap (λ h. walk h (page_of b) 4 root g.state.mem) g.same_map) ∙ h);
        kept = g.kept;
      }

  old_page :
      (e : Pte)
      → page_entry root address k ≡ some e
      → IsExtended user writable executable root address k fs result
  old_page e w = record {
    is_new = false;
    state = k;
    returns = vm_map_mapped user writable executable root address k e w;
    same_map = refl;
    left = fs;
    space = s;
    used = omega arith;
    entry = e;
    found = w;
    before = inl (refl, w);
    others = λ b b_low d. refl;
    isolated = λ b e' b_low d h.
        frames-Differ k.hhdm 4 root k.mem (page_of address) (page_of b) e e' (omega arith)
          (omega arith) s.tree d w h;
    kept = λ q al out outside x lo hi. refl;
  }

  -- In a space of user pages with at least four free pages, vm_map of an address of the lower half
  -- succeeds and leaves such a space, with at most four free pages less. It returns true exactly
  -- if the page was not mapped. The page is then mapped, by its old entry or else with the
  -- permissions asked for, to a frame that no other page has; every other page of the lower half
  -- is mapped as before; and pages that are neither free, nor tables, nor frames keep their bytes.
  pub vm_map-IsExtended :
      4 ≤ length fs → IsExtended user writable executable root address k fs result
  vm_map-IsExtended room = go (page_entry root address k) refl
    where
      go :
          (o : Option Pte)
          → page_entry root address k ≡ o
          → IsExtended user writable executable root address k fs result
      go none w = new_page w room
      go (some e) w = old_page e w
