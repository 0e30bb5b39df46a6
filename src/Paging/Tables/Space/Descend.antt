-- ===== src/Paging/Tables/Space/Descend.antt =====
-- The loop of vm_map on a tree of tables, from the level below to the whole.
use aos_kernel.Base.{
  ℕ, zero, suc, ◌+◌, ◌%◌, ◌≤◌, ◌<◌, ◌≡◌, refl, sym, ap, subst, ◌∙◌, ◌⊎◌, inl, inr, Bool, true,
  false, none, List, [], ◌∷◌, ◌++◌, length, arith, if◌then◌else◌,
}
use aos_kernel.Memory.{Mem}
use aos_kernel.Paging.Pool.{Pool}
use aos_kernel.Paging.Pool.Chain.{IsPool, NotIn}
use aos_kernel.Paging.Tables.{load_pte, next_table, index, Outcome, done}
use aos_kernel.Paging.Tables.Walk.{walk}
use aos_kernel.Paging.Tables.Map.Shape.{In, load_pte-page}
use aos_kernel.Paging.Tables.Space.{
  width, user_end, Within, slot, On, below, Inside, IsTree, NotFree, Differ,
}
use aos_kernel.Paging.Tables.Space.Frame.{
  slot_in, index_lt, Within-aligned, Within-Inside, in_width,
}
use aos_kernel.Paging.Tables.Space.Change.{
  eq_or_ne, IsChanged, changed-IsTree, changed_inside, changed_walk,
}

-- What the loop leaves behind for a page that was not mapped: a tree again, whose new tables are
-- pages taken from the pool; other pages, and the walks of other addresses, are as they were.
pub record IsGrown (address n root : ℕ) (k : Pool) (fs : List ℕ) (result : Outcome (Bool × Pool))
    : Type 0 where
  pub state : Pool
  pub returns : result ≡ done (true, state)
  pub same_map : state.hhdm ≡ k.hhdm
  pub taken : List ℕ
  pub left : List ℕ
  pub split : fs ≡ taken ++ left
  pub few : length taken ≤ n
  pub pool : IsPool state left
  pub tree : IsTree k.hhdm n root state.mem
  pub inside :
      (q : ℕ) → Inside k.hhdm n root state.mem q → Inside k.hhdm n root k.mem q ⊎ In q taken
  pub kept :
      (q : ℕ)
      → q % 4096 ≡ 0
      → NotIn q fs
      → ¬ Inside k.hhdm n root k.mem q
      → (x : ℕ) → q ≤ x
      → x < q + 4096
      → state.mem x ≡ k.mem x
  pub others :
      (b : ℕ)
      → b < user_end
      → Differ address b n
      → walk k.hhdm b n root state.mem ≡ walk k.hhdm b n root k.mem

pub NotIn-In : (q : ℕ) (xs ys : List ℕ) → NotIn q (xs ++ ys) → In q xs → ⊥
NotIn-In q [] ys out h = elim h [ ]
NotIn-In q (x ∷ xs) ys out (inl e) = out.0 e
NotIn-In q (x ∷ xs) ys out (inr h) = NotIn-In q xs ys out.1 h

pub taken_free : (q : ℕ) (fs xs ys : List ℕ) → fs ≡ xs ++ ys → NotIn q fs → In q xs → ⊥
taken_free q fs xs ys e out h = NotIn-In q xs ys (subst (NotIn q) e out) h

-- At the end of the loop nothing has grown.
pub IsGrown-zero :
    (address root : ℕ) (k : Pool) (fs : List ℕ)
    → IsPool k fs
    → IsTree k.hhdm 0 root k.mem
    → IsGrown address 0 root k fs (done (true, k))
IsGrown-zero address root k fs p t = record {
  state = k;
  returns = refl;
  same_map = refl;
  taken = [];
  left = fs;
  split = refl;
  few = omega arith;
  pool = p;
  tree = t;
  inside = λ q x. inl x;
  kept = λ q al out outside x lo hi. refl;
  others = λ b b_low d. refl;
}

-- An address that takes the same entry parts from the way further down.
same_way :
    (hhdm address i root b : ℕ) (m m' : Mem)
    → load_pte m' (slot hhdm root (index address i)) ≡ load_pte m (slot hhdm root (index address i))
    → (Differ address b i
        → walk hhdm b i (below hhdm m root (index address i)) m'
          ≡ walk hhdm b i (below hhdm m root (index address i)) m)
    → index b i ≡ index address i
    → Differ address b (suc i)
    → walk hhdm b (suc i) root m' ≡ walk hhdm b (suc i) root m
same_way hhdm address zero root b m m' e rest h (inl ne) = absurd (ne (sym h))
same_way hhdm address zero root b m m' e rest h (inr d) = elim d [ ]
same_way hhdm address (suc i) root b m m' e rest h (inl ne) = absurd (ne (sym h))
same_way hhdm address (suc i) root b m m' e rest h (inr d) =
    let p = load_pte m (slot hhdm root (index address (suc i))) in
    rw (h, e) (ap (λ w. if p.present then w else none) (rest d))

-- The entry is present: the tree below it has grown, and so has the whole.
module _ (address : ℕ) (low : address < user_end) (i root : ℕ) (k : Pool) (fs : List ℕ)
    (rest : Outcome (Bool × Pool)) (t : IsTree k.hhdm (suc i) root k.mem)
    (free : NotFree k.hhdm (suc i) root k.mem fs) (on : On k.hhdm k.mem root (index address i))
    (g : IsGrown address i (below k.hhdm k.mem root (index address i)) k fs rest) where
  node_kept : (x : ℕ) → root + k.hhdm ≤ x → x < root + k.hhdm + 4096 → g.state.mem x ≡ k.mem x
  node_kept x lo hi =
      g.kept (root + k.hhdm) t.aligned (free (root + k.hhdm) (inl refl))
        (t.own (index address i) (index_lt address i low) on) x lo hi

  grown_slot :
      (j : ℕ)
      → j < width i
      → load_pte g.state.mem (slot k.hhdm root j) ≡ load_pte k.mem (slot k.hhdm root j)
  grown_slot j l =
      let (lo, hi) = slot_in k.hhdm root j t.room (in_width i j l) in
      load_pte-page k.mem g.state.mem (root + k.hhdm) (slot k.hhdm root j) lo hi node_kept

  grown_changed : IsChanged k.hhdm i root k.mem g.state.mem (index address i) (λ q. In q g.taken)
  grown_changed =
      let c = index address i in
      let up =
        λ (j : ℕ) (h : On k.hhdm k.mem root j) (q : ℕ)
            (x : Within k.hhdm false i (below k.hhdm k.mem root j) k.mem q).
          Within-Inside k.hhdm i (below k.hhdm k.mem root j) k.mem q x in
      let e = grown_slot c (index_lt address i low) in
      record {
        slots = λ j l ne. grown_slot j l;
        subs = λ j l ne h q x y lo hi.
            g.kept q
              (Within-aligned k.hhdm false i (below k.hhdm k.mem root j) k.mem q (t.sub j l h) x)
              (free q (inr (j, l, h, up j h q x)))
              (t.apart j c q l (index_lt address i low) ne h on (up j h q x)) y lo hi;
        tree = λ h. subst (λ p. IsTree k.hhdm i (next_table p) g.state.mem) (sym e) g.tree;
        from = λ q h x.
            elim (g.inside q (subst (λ p. Inside k.hhdm i (next_table p) g.state.mem q) e x)) [
              | inl o ↦ inl (on, o)
              | inr n ↦ inr n
            ];
        fresh = λ q n x. taken_free q fs g.taken g.left g.split (free q x) n;
      }

  pub IsGrown-suc :
      (result : Outcome (Bool × Pool))
      → result ≡ rest
      → (h : IsGrown address (suc i) root k fs result) × (length h.taken ≤ i)
  IsGrown-suc result e = (
    record {
      state = g.state;
      returns = e ∙ g.returns;
      same_map = g.same_map;
      taken = g.taken;
      left = g.left;
      split = g.split;
      few = omega (arith, g.few);
      pool = g.pool;
      tree =
          changed-IsTree k.hhdm i root k.mem g.state.mem (index address i) (λ q. In q g.taken) t
            (index_lt address i low) grown_changed;
      inside = λ q x.
          changed_inside k.hhdm i root k.mem g.state.mem (index address i) (λ q. In q g.taken) t
            (index_lt address i low) grown_changed q x;
      kept = λ q al out outside x lo hi.
          g.kept q al out (λ h. outside (inr (index address i, index_lt address i low, on, h))) x lo
            hi;
      others = λ b b_low d. elim (eq_or_ne (index b i) (index address i)) [
        | inl h ↦
            same_way k.hhdm address i root b k.mem g.state.mem
              (grown_slot (index address i) (index_lt address i low)) (g.others b b_low) h d
        | inr ne ↦
            changed_walk k.hhdm i root k.mem g.state.mem (index address i) (λ q. In q g.taken) b
              b_low t grown_changed ne
      ];
    },
    g.few,
  )
