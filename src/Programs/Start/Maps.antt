-- ===== src/Programs/Start/Maps.antt =====
-- A sequence of calls of vm_map, each for another page.
use aos_kernel.Base.{
  ℕ, zero, suc, ◌+◌, ◌*◌, ◌≤◌, ◌<◌, ◌≡◌, refl, sym, ap, ◌∙◌, ◌⊎◌, inl, inr, Bool, none, some, List,
  [], ◌∷◌, arith, length,
}
use aos_kernel.Paging.Pte.{Pte}
use aos_kernel.Paging.Pool.{Pool}
use aos_kernel.Paging.Tables.{vm_map, Outcome, done, fault}
use aos_kernel.Paging.Tables.Map.Laws.{page_of}
use aos_kernel.Paging.Tables.Space.{user_end, Differ}
use aos_kernel.Paging.Tables.Space.Laws.{IsSpace, page_entry, Permits, vm_map-IsExtended}
use aos_kernel.Programs.Start.{MapCall, map_calls}

pub Differ-sym : (a b n : ℕ) → Differ a b n → Differ b a n
Differ-sym a b zero d = d
Differ-sym a b (suc n) (inl ne) = inl (λ e. ne (sym e))
Differ-sym a b (suc n) (inr d) = inr (Differ-sym a b n d)

-- None of the calls is for the page of `b`.
abbrev pub Others : ℕ → List MapCall → Type 0
Others b [] = Unit {0}
Others b (c ∷ cs) = Differ (page_of c.address) (page_of b) 4 × Others b cs

-- The calls are for addresses of the lower half, each in another page.
abbrev pub ArePages : List MapCall → Type 0
ArePages [] = Unit {0}
ArePages (c ∷ cs) = (c.address < user_end) × Others c.address cs × ArePages cs

-- In `k'` the page of the call is mapped: as it was in `k`, or else as the call asks.
pub record IsEntered (root : ℕ) (c : MapCall) (k k' : Pool) : Type 0 where
  pub entry : Pte
  pub found : page_entry root c.address k' ≡ some entry
  pub before :
      (page_entry root c.address k ≡ some entry)
      ⊎ ((page_entry root c.address k ≡ none) × Permits c.user c.writable c.executable entry)

abbrev pub AllEntered : ℕ → List MapCall → Pool → Pool → Type 0
AllEntered root [] k k' = Unit {0}
AllEntered root (c ∷ cs) k k' = IsEntered root c k k' × AllEntered root cs k k'

pub record AreMapped (root : ℕ) (calls : List MapCall) (k : Pool) (fs : List ℕ)
    (result : Outcome Pool) : Type 0 where
  pub state : Pool
  pub returns : result ≡ done state
  pub left : List ℕ
  pub space : IsSpace root state left
  pub used : length fs ≤ length left + 4 * length calls
  pub entered : AllEntered root calls k state
  pub others :
      (b : ℕ) → b < user_end → Others b calls → page_entry root b state ≡ page_entry root b k

-- A page that the first call leaves alone is entered as if the call had not been made.
before_first :
    (root a : ℕ) (cs : List MapCall) (k k1 k' : Pool)
    → ((b : ℕ)
        → b < user_end
        → Differ (page_of a) (page_of b) 4
        → page_entry root b k1 ≡ page_entry root b k)
    → Others a cs
    → ArePages cs
    → AllEntered root cs k1 k'
    → AllEntered root cs k k'
before_first root a [] k k1 k' same out pages h = tt
before_first root a (c ∷ cs) k k1 k' same out pages (h, hs) =
    let e = same c.address pages.0 (Differ-sym (page_of c.address) (page_of a) 4 out.0) in
    (
      record {
        entry = h.entry;
        found = h.found;
        before = elim h.before [ inl w ↦ inl (sym e ∙ w) | inr w ↦ inr (sym e ∙ w.0, w.1) ];
      },
      before_first root a cs k k1 k' same out.1 pages.2 hs,
    )

calls_next :
    (root : ℕ) (c : MapCall) (cs : List MapCall) (k : Pool) (is_new : Bool) (k1 : Pool)
    → vm_map root c.address c.user c.writable c.executable k ≡ done (is_new, k1)
    → map_calls root (c ∷ cs) k ≡ map_calls root cs k1
unfolding map_calls
calls_next root c cs k is_new k1 e =
    ap (λ o. elim o [ done r ↦ map_calls root cs r.1 | fault ↦ fault ]) e

pub map_calls-AreMapped :
    (root : ℕ) (calls : List MapCall) (k : Pool) (fs : List ℕ)
    → IsSpace root k fs
    → ArePages calls
    → 4 * length calls ≤ length fs
    → AreMapped root calls k fs (map_calls root calls k)
unfolding map_calls
map_calls-AreMapped root [] k fs s pages room = record {
  state = k;
  returns = refl;
  left = fs;
  space = s;
  used = omega arith;
  entered = tt;
  others = λ b low out. refl;
}
map_calls-AreMapped root (c ∷ cs) k fs s (low, out, pages) room =
    let x =
      vm_map-IsExtended c.user c.writable c.executable root c.address k fs low s (omega arith) in
    let rest = map_calls-AreMapped root cs x.state x.left x.space pages (omega (arith, x.used)) in
    record {
      state = rest.state;
      returns = calls_next root c cs k x.is_new x.state x.returns ∙ rest.returns;
      left = rest.left;
      space = rest.space;
      used = omega (arith, x.used, rest.used);
      entered = (
        record {
          entry = x.entry;
          found = rest.others c.address low out ∙ x.found;
          before = elim x.before [ inl w ↦ inl w.1 | inr w ↦ inr (w.1, w.2) ];
        },
        before_first root c.address cs k x.state rest.state x.others out pages rest.entered,
      );
      others = λ b b_low far. rest.others b b_low far.1 ∙ x.others b b_low far.0;
    }
