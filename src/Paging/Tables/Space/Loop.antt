-- ===== src/Paging/Tables/Space/Loop.antt =====
-- The loop of vm_map on a tree of tables.
use aos_kernel.Base.{
  ℕ, zero, suc, ◌+◌, ◌-◌, ◌%◌, ◌^◌, ◌≤◌, ◌<◌, ◌≡◌, refl, sym, ap, subst, ◌∙◌, inl, inr, Bool, true,
  false, none, some, List, [], ◌∷◌, arith, length, if◌then◌else◌, Bool-cases, ==_of_ne,
}
use aos_kernel.Memory.{Mem}
use aos_kernel.Paging.Pte.{Pte}
use aos_kernel.Paging.Pool.{Pool}
use aos_kernel.Paging.Pool.Chain.{IsPool, NotIn}
use aos_kernel.Paging.Tables.{load_pte, next_table, index, entry_at, fresh_entry, map_levels, done}
use aos_kernel.Paging.Tables.Walk.{walk}
use aos_kernel.Paging.Tables.Map.Blank.{blank_walk}
use aos_kernel.Paging.Tables.Map.Descend.{loop, loop_present, goes_on, created, k', e}
use aos_kernel.Paging.Tables.Space.{user_end, On, below, IsTree, NotFree}
use aos_kernel.Paging.Tables.Space.Frame.{index_lt}
use aos_kernel.Paging.Tables.Space.Descend.{IsGrown, IsGrown-zero, IsGrown-suc}
use aos_kernel.Paging.Tables.Space.Blank.{blank-IsTree, blank_inside}
use aos_kernel.Paging.Tables.Space.Create.{created-IsTree}
use aos_kernel.Paging.Tables.Space.Missing.{created_free, IsGrown-missing}

some_ne_none : {e : Pte} → some e ≡ none → ⊥
some_ne_none h = cc

fresh_present :
    (hhdm p : ℕ) (user writable executable : Bool) (i : ℕ) (e : Pte)
    → (fresh_entry hhdm p user writable executable i e).present ≡ true
fresh_present hhdm p user writable executable zero e = refl
fresh_present hhdm p user writable executable (suc i) e = refl

-- Below a present entry the walk of an address that is not mapped finds nothing.
none_below :
    (hhdm address i root : ℕ) (m : Mem)
    → (load_pte m (entry_at hhdm address root i)).present ≡ true
    → walk hhdm address (suc i) root m ≡ none
    → (0 < i)
      × (walk hhdm address i (next_table (load_pte m (entry_at hhdm address root i))) m ≡ none)
none_below hhdm address zero root m pr w = absurd (
    some_ne_none
      (ap (λ b. if b then some (load_pte m (entry_at hhdm address root 0)) else none) (sym pr) ∙ w))
none_below hhdm address (suc i) root m pr w = (
  omega arith,
  ap
        (λ b.
          if b
          then walk hhdm address (suc i)
              (next_table (load_pte m (entry_at hhdm address root (suc i)))) m
          else none)
        (sym pr)
      ∙ w,
)

-- The walk of an address ends at a zeroed page at any level.
blank_none :
    (hhdm address n f : ℕ) (m : Mem)
    → hhdm ≤ f
    → f + 4096 ≤ 2 ^ 64
    → ((x : ℕ) → f ≤ x → x < f + 4096 → m x ≡ 0)
    → walk hhdm address n (f - hhdm) m ≡ none
blank_none hhdm address zero f m lo hi zeroed = refl
blank_none hhdm address (suc i) f m lo hi zeroed = blank_walk hhdm address i f m lo hi zeroed

module _ (user writable executable : Bool) (address : ℕ) (low : address < user_end) where
  -- The branch for a missing entry, with what the loop makes of the new page.
  missing-IsGrown :
      (n root : ℕ) (k : Pool) (f : ℕ) (fs : List ℕ) (p : IsPool k (f ∷ fs)) (high : 2 ^ 63 ≤ k.hhdm)
      (t : IsTree k.hhdm (suc n) root k.mem) (free : NotFree k.hhdm (suc n) root k.mem (f ∷ fs))
      (pr : (load_pte k.mem (entry_at k.hhdm address root n)).present ≡ false)
      → let out = free (root + k.hhdm) (inl refl) in
        let j =
          k' user writable executable address n root k f fs p high t.aligned t.room out.0 out.1
            pr in
        IsGrown address n (f - k.hhdm) j fs (loop user writable executable address n (f - k.hhdm) j)
        → IsGrown address
            (suc n)
            root
            k
            (f ∷ fs)
            (loop user writable executable address (suc n) root k)
  missing-IsGrown n root k f fs p high t free pr rest =
      let out = free (root + k.hhdm) (inl refl) in
      let c =
        created user writable executable address n root k f fs p high t.aligned t.room out.0 out.1
          pr in
      let j =
        k' user writable executable address n root k f fs p high t.aligned t.room out.0 out.1 pr in
      let e' =
        e user writable executable address n root k f fs p high t.aligned t.room out.0 out.1 pr in
      let f_in : (f % 4096 ≡ 0) × (k.hhdm ≤ f) × (f + 4096 ≤ 2 ^ 64) =
        (p.in_map.0, p.in_map.1, p.in_map.2) in
      let on : On k.hhdm j.mem root (index address n) =
        ap (λ x. x.present) c.entry ∙ fresh_present k.hhdm f user writable executable n _ in
      let rest_of = loop user writable executable address n (f - k.hhdm) j in
      let rest' : IsGrown address n (below k.hhdm j.mem root (index address n)) j fs rest_of =
        subst (λ r. IsGrown address n r j fs rest_of) (sym (ap next_table c.entry ∙ c.table))
          rest in
      let result = loop user writable executable address (suc n) root k in
      let (g, less) =
        IsGrown-suc address low n root j fs rest_of
          (created-IsTree address low n root k j f fs e' c f_in t free)
          (created_free address low n root k j.mem j.free_list f fs e' c f_in t free p.distinct.0)
          on rest' result
          (goes_on user writable executable address n root k f fs p high t.aligned t.room out.0
            out.1 pr) in
      IsGrown-missing address low n root k j.mem j.free_list f fs e' c f_in t free p.distinct.0
        result pr g less

  pub loop-IsGrown :
      (n root : ℕ) (k : Pool) (fs : List ℕ)
      → IsPool k fs
      → 2 ^ 63 ≤ k.hhdm
      → IsTree k.hhdm n root k.mem
      → NotFree k.hhdm n root k.mem fs
      → walk k.hhdm address n root k.mem ≡ none
      → n ≤ length fs
      → IsGrown address n root k fs (loop user writable executable address n root k)
  unfolding map_levels
  loop-IsGrown zero root k fs p high t free w l = IsGrown-zero address root k fs p t
  loop-IsGrown (suc n) root k [] p high t free w l = absurd (omega arith)
  loop-IsGrown (suc n) root k (f ∷ fs) p high t free w l =
      let j = index address n in
      let lt = index_lt address n low in
      elim (Bool-cases (load_pte k.mem (entry_at k.hhdm address root n)).present) [
        | inl pr ↦
            (let next = next_table (load_pte k.mem (entry_at k.hhdm address root n)) in
              let (pos, none_next) = none_below k.hhdm address n root k.mem pr w in
              (IsGrown-suc address low n root k (f ∷ fs)
                (loop user writable executable address n next k) t free pr
                (loop-IsGrown n next k (f ∷ fs) p high (t.sub j lt pr)
                  (λ q x. free q (inr (j, lt, pr, x))) none_next (omega arith))
                (loop user writable executable address (suc n) root k)
                (loop_present user writable executable address n root k pr
                  ∙ ap
                      (λ b.
                        if b
                        then done (false, k)
                        else loop user writable executable address n next k)
                      (==_of_ne n 0 (omega arith)))).0)
        | inr pr ↦
            (let out = free (root + k.hhdm) (inl refl) in
              let c =
                created user writable executable address n root k f fs p high t.aligned t.room out.0
                  out.1 pr in
              let k1 =
                k' user writable executable address n root k f fs p high t.aligned t.room out.0
                  out.1 pr in
              missing-IsGrown n root k f fs p high t free pr (
                loop-IsGrown n (f - k.hhdm) k1 fs c.pool high
                  (blank-IsTree k.hhdm f k1.mem p.in_map.0 p.in_map.1 p.in_map.2 c.zeroed n)
                  (λ q x.
                    subst (λ a. NotIn a fs)
                      (sym (
                        blank_inside k.hhdm f k1.mem p.in_map.0 p.in_map.1 p.in_map.2 c.zeroed n q
                          x))
                      p.distinct.0)
                  (blank_none k.hhdm address n f k1.mem p.in_map.1 p.in_map.2 c.zeroed)
                  (omega arith)))
      ]
