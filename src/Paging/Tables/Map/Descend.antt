-- ===== src/Paging/Tables/Map/Descend.antt =====
-- One level of vm_map: what is below is mapped, and so is the whole.

use aos_kernel.Base.{
  ℕ, suc, ◌+◌, ◌-◌, ◌%◌, ◌^◌, ◌≤◌, ◌<◌, ◌≡◌, ◌≢◌, refl, sym, ap, subst, ◌∙◌, inl, inr, Bool, true,
  false, List, [], ◌∷◌, arith, ◌==◌, if◌then◌else◌, ==_of_ne,
}
use aos_kernel.Memory.{Mem}
use aos_kernel.Paging.Pte.{Pte}
use aos_kernel.Paging.Pool.{Pool}
use aos_kernel.Paging.Pool.Chain.{IsPool, NotIn}
use aos_kernel.Paging.Tables.{
  load_pte, next_table, entry_at, map_missing, map_levels, Outcome, done,
}
use aos_kernel.Paging.Tables.Map.Create.{
  IsCreated, fresh, after, map_missing-after, after-IsCreated,
}
use aos_kernel.Paging.Tables.Map.Shape.{pages, IsMapped, entry_in, load_pte-page}

pub pages_present :
    (hhdm address i root : ℕ) (m : Mem)
    → (load_pte m (entry_at hhdm address root i)).present ≡ true
    → pages hhdm address (suc i) root m
      ≡ (root + hhdm)
        ∷ pages hhdm address i (next_table (load_pte m (entry_at hhdm address root i))) m
pages_present hhdm address i root m pr =
    ap
      (λ b.
        (root + hhdm)
        ∷ (if b
            then pages hhdm address i (next_table (load_pte m (entry_at hhdm address root i))) m
            else []))
      pr

module _ (user writable executable : Bool) (address : ℕ) where
  abbrev pub loop : ℕ → ℕ → Pool → Outcome (Bool × Pool)
  loop n root k = map_levels user writable executable address n root k

  -- One round of the loop.
  pub loop_present :
      (i root : ℕ) (k : Pool)
      → let e = load_pte k.mem (entry_at k.hhdm address root i) in
        e.present ≡ true
        → loop (suc i) root k ≡ (if i == 0 then done (false, k) else loop i (next_table e) k)
  unfolding map_levels
  loop_present i root k pr = rw pr

  pub loop_missing :
      (i root : ℕ) (k : Pool)
      → let a = entry_at k.hhdm address root i in
        (load_pte k.mem a).present ≡ false
        → loop (suc i) root k
          ≡ map_missing user writable executable i a (λ table k'. loop i table k') k
  unfolding map_levels
  loop_missing i root k pr = rw pr

  -- The entry is present: the loop goes on below, and does not touch this table.
  pub present_step :
      (i root : ℕ) (k : Pool) (fs : List ℕ)
      → let a = entry_at k.hhdm address root (suc i) in
        let next = next_table (load_pte k.mem a) in
        let v = root + k.hhdm in
        (load_pte k.mem a).present ≡ true
        → v % 4096 ≡ 0
        → v + 4096 ≤ 2 ^ 64
        → NotIn v fs
        → NotIn v (pages k.hhdm address (suc i) next k.mem)
        → IsMapped user writable executable address (suc i) next k fs (loop (suc i) next k)
        → IsMapped user writable executable address
            (suc (suc i))
            root
            k
            fs
            (loop (suc (suc i)) root k)
  present_step i root k fs pr al room free once rest =
      let a = entry_at k.hhdm address root (suc i) in
      let (lo, hi) = entry_in k.hhdm address root (suc i) room in
      let same =
        load_pte-page k.mem rest.state.mem (root + k.hhdm) a lo hi
          (rest.others (root + k.hhdm) al free once) in
      record {
        state = rest.state;
        returns =
            loop_present (suc i) root k pr
            ∙ ap
                (λ b. if b then done (false, k) else loop (suc i) (next_table (load_pte k.mem a)) k)
                (==_of_ne (suc i) 0 (omega arith))
            ∙ rest.returns;
        same_map = rest.same_map;
        taken = rest.taken;
        left = rest.left;
        split = rest.split;
        pool = rest.pool;
        entry = rest.entry;
        found = rw (same, pr) rest.found;
        leaf = rest.leaf;
        others = λ q ql out out' x l h.
            rest.others q ql out
              (subst (NotIn q) (pages_present k.hhdm address (suc i) root k.mem pr) out').1 x l h;
      }

  module _ (i root : ℕ) (k : Pool) (f : ℕ) (fs : List ℕ) (p : IsPool k (f ∷ fs))
      (high : 2 ^ 63 ≤ k.hhdm) (v_al : (root + k.hhdm) % 4096 ≡ 0)
      (room : root + k.hhdm + 4096 ≤ 2 ^ 64) (v_f : root + k.hhdm ≢ f)
      (v_out : NotIn (root + k.hhdm) fs)
      (pr : (load_pte k.mem (entry_at k.hhdm address root i)).present ≡ false) where
    abbrev pub a : ℕ
    a = entry_at k.hhdm address root i

    abbrev pub in_page : (root + k.hhdm ≤ a) × (a + 8 ≤ root + k.hhdm + 4096)
    in_page = entry_in k.hhdm address root i room

    abbrev pub e : Pte
    e =
        fresh user writable executable i k f fs (root + k.hhdm) a p high v_al v_f v_out in_page.0
          in_page.1

    abbrev pub k' : Pool
    k' =
        after user writable executable i k f fs (root + k.hhdm) a p high v_al v_f v_out in_page.0
          in_page.1

    pub created : IsCreated k f fs (root + k.hhdm) a e k'
    created =
        after-IsCreated user writable executable i k f fs (root + k.hhdm) a p high v_al v_f v_out
          in_page.0 in_page.1

    pub goes_on : loop (suc i) root k ≡ loop i (f - k.hhdm) k'
    goes_on =
        loop_missing i root k pr
        ∙ map_missing-after user writable executable i k f fs (root + k.hhdm) a p high v_al v_f
            v_out in_page.0 in_page.1 (λ table j. loop i table j)

  -- A page that is neither `f` nor the table at `root` keeps its bytes.
  created_others :
      {k k' : Pool} {f v a : ℕ} {fs : List ℕ} {e : Pte} (q : ℕ)
      → IsCreated k f fs v a e k'
      → f % 4096 ≡ 0
      → v % 4096 ≡ 0
      → q % 4096 ≡ 0
      → q ≢ f
      → q ≢ v
      → (x : ℕ) → q ≤ x
      → x < q + 4096
      → k'.mem x ≡ k.mem x
  created_others q c fl vl ql qf qv x lo hi = c.others x (ground arith) (ground arith)

  pub missing_last :
      (root : ℕ) (k : Pool) (f : ℕ) (fs : List ℕ) (p : IsPool k (f ∷ fs)) (high : 2 ^ 63 ≤ k.hhdm)
      (v_al : (root + k.hhdm) % 4096 ≡ 0) (room : root + k.hhdm + 4096 ≤ 2 ^ 64)
      (v_f : root + k.hhdm ≢ f) (v_out : NotIn (root + k.hhdm) fs)
      (pr : (load_pte k.mem (entry_at k.hhdm address root 0)).present ≡ false)
      → IsMapped user writable executable address 1 root k (f ∷ fs) (loop 1 root k)
  missing_last root k f fs p high v_al room v_f v_out pr =
      let c = created 0 root k f fs p high v_al room v_f v_out pr in
      record {
        state = k' 0 root k f fs p high v_al room v_f v_out pr;
        returns = goes_on 0 root k f fs p high v_al room v_f v_out pr ∙ unfold map_levels in refl;
        same_map = refl;
        taken = f ∷ [];
        left = fs;
        split = refl;
        pool = c.pool;
        entry = e 0 root k f fs p high v_al room v_f v_out pr;
        found = rw c.entry;
        leaf = record {
          present = refl;
          user_is = refl;
          writable_is = refl;
          no_execute_is = refl;
          frame_free = inl (omega (arith, c.table, p.in_map));
        };
        others =
            λ q ql out out' x lo hi. created_others q c p.in_map.0 v_al ql out.0 out'.0 x lo hi;
      }

  pub missing_step :
      (i root : ℕ) (k : Pool) (f : ℕ) (fs : List ℕ) (p : IsPool k (f ∷ fs)) (high : 2 ^ 63 ≤ k.hhdm)
      (v_al : (root + k.hhdm) % 4096 ≡ 0) (room : root + k.hhdm + 4096 ≤ 2 ^ 64)
      (v_f : root + k.hhdm ≢ f) (v_out : NotIn (root + k.hhdm) fs)
      (pr : (load_pte k.mem (entry_at k.hhdm address root (suc i))).present ≡ false)
      → let j = k' (suc i) root k f fs p high v_al room v_f v_out pr in
        pages k.hhdm address (suc i) (f - k.hhdm) j.mem ≡ f ∷ []
        → IsMapped user writable executable address
            (suc i)
            (f - k.hhdm)
            j
            fs
            (loop (suc i) (f - k.hhdm) j)
        → IsMapped user writable executable address
            (suc (suc i))
            root
            k
            (f ∷ fs)
            (loop (suc (suc i)) root k)
  missing_step i root k f fs p high v_al room v_f v_out pr only rest =
      let c = created (suc i) root k f fs p high v_al room v_f v_out pr in
      let j = k' (suc i) root k f fs p high v_al room v_f v_out pr in
      let b = a (suc i) root k f fs p high v_al room v_f v_out pr in
      let (lo', hi') = entry_in k.hhdm address root (suc i) room in
      let kept = load_pte-page j.mem rest.state.mem (root + k.hhdm) b lo' hi' (
        rest.others (root + k.hhdm) v_al v_out
          (subst (NotIn (root + k.hhdm)) (sym only) (v_f, tt))) in
      record {
        state = rest.state;
        returns = goes_on (suc i) root k f fs p high v_al room v_f v_out pr ∙ rest.returns;
        same_map = rest.same_map;
        taken = f ∷ rest.taken;
        left = rest.left;
        split = ap (◌∷◌ f) rest.split;
        pool = rest.pool;
        entry = rest.entry;
        found = rw (kept, c.entry) (rw c.table rest.found);
        leaf = record {
          present = rest.leaf.present;
          user_is = rest.leaf.user_is;
          writable_is = rest.leaf.writable_is;
          no_execute_is = rest.leaf.no_execute_is;
          frame_free = inr rest.leaf.frame_free;
        };
        others = λ q ql out out' x lo hi.
            rest.others q ql out.1 (subst (NotIn q) (sym only) (out.0, tt)) x lo hi
            ∙ created_others q c p.in_map.0 v_al ql out.0 out'.0 x lo hi;
      }
