-- ===== src/Coherence/Top/Outcome.antt =====
-- zsim/src/coherence_ctrls.cpp, MESITopCC::processAccess: what the answer to a GETS or PUTS tells of
-- the line above.
use mathlib.Core.Option.{some-injective, none-ne-some}
use csce614_group_project.Base.{
  ℕ, zero, suc, ◌<◌, ◌≤◌, ◌≡◌, ◌∙◌, refl, sym, ap, subst, inl, inr, Bool, true, false, not, ◌&&◌,
  Option, none, some, Array, write, if◌then◌else◌, ◌>>=◌, ◌>>◌, require, add32, Bool-cases, arith,
}
use csce614_group_project.Hierarchy.{invx, gets, puts, MesiState, is_owner, has_flag, noexcl}
use csce614_group_project.Coherence.Top.{
  Entry, Children, Invalidate, Call, Grant, Reply, is_empty, is_exclusive, process_access,
  give_shared, remove_sharer, sent,
}
use csce614_group_project.Coherence.Top.Directory.{IsCoherent, count}

-- a directory with a sharer has one
count_some :
    (n first : ℕ) (sharers : Array Bool) → 0 < count n first sharers → (c : ℕ) × (sharers c ≡ true)
unfolding count
count_some zero first sharers h = absurd (omega arith)
count_some (suc n) first sharers h = elim (Bool-cases (sharers first)) [
  | inl p ↦ (first, p)
  | inr p ↦ count_some n (suc first) sharers (ground arith)
]

-- An exclusive entry is one child's that owns the line.
pub exclusive-is_owner :
    (n : ℕ) (d : Entry) (states : ℕ → MesiState)
    → IsCoherent n d states
    → is_exclusive d ≡ true
    → (c : ℕ) × (is_owner (states c) ≡ true)
unfolding is_exclusive
exclusive-is_owner n d states v ex =
    let (c, mine) = count_some n 0 d.sharers (ground (arith, v.counted)) in
    (c, ground (arith, v.owners c))

bound :
    {A B : Type 0} (o : Option A) (f : A → Option B) {y : B}
    → (o >>= f) ≡ some y
    → (x : A) × (o ≡ some x) × (f x ≡ some y)
bound none f e = absurd (none-ne-some _ e)
bound (some x) f e = (x, refl, e)

required : {A : Type 0} (b : Bool) (o : Option A) {y : A} → (require b >> o) ≡ some y → o ≡ some y
required true o e = e
required false o e = absurd (none-ne-some _ e)

module _ {W : Type 0} (k : Children) (invalidate : Invalidate W) (a : Call)
    (child_state : MesiState) (d : Entry) (w : W) (g : Grant W) where
  pub puts-outcome :
      process_access k invalidate puts a child_state d false w ≡ some g
      → (2 ≤ d.num_sharers → d.exclusive ≡ false)
      → d.num_sharers < 4294967296
      → (g.reply.writeback ≡ false) × (is_exclusive g.reply.entry ≡ false)
  unfolding process_access remove_sharer is_exclusive
  puts-outcome run alone small =
      let e = some-injective _ _ (required (d.sharers a.child_id) _ run) in
      (
        sym (ap (λ r. r.reply.writeback) e),
        sym (ap (λ r. is_exclusive r.reply.entry) e) ∙ ground (arith, alone),
      )

  -- the answer with S, once the other copies are shared
  abbrev granted : Reply W → Grant W
  granted r = record {
    reply = record r {
      entry = record {
        sharers = write r.entry.sharers a.child_id true;
        num_sharers = add32 r.entry.num_sharers 1;
        exclusive = false;
      };
    };
    child_state = MesiState.s;
  }

  shared-outcome :
      give_shared k invalidate a d false w ≡ some g
      → (g.reply.writeback ≡ true → is_exclusive d ≡ true) × (is_exclusive g.reply.entry ≡ false)
  unfolding give_shared is_exclusive
  shared-outcome run =
      let (r, first, rest) =
        bound _ (λ r. require (not (is_exclusive r.entry)) >> some (granted r))
          (required (not (d.sharers a.child_id)) _ run) in
      let e = some-injective _ _ (required (not (is_exclusive r.entry)) (some (granted r)) rest) in
      (
        asked r first (sym (ap (λ q. q.reply.writeback) e)),
        sym (ap (λ q. is_exclusive q.reply.entry) e) ∙ ground arith,
      )
    where
      asked :
          (r : Reply W)
          → (if is_exclusive d
              then sent k invalidate a.cycle a invx d false w
              else some (record { cycle = a.cycle; entry = d; writeback = false; world = w }))
            ≡ some r
          → g.reply.writeback ≡ r.writeback
          → g.reply.writeback ≡ true
          → is_exclusive d ≡ true
      asked r first same on = elim (Bool-cases (is_exclusive d)) [
        | inl ex ↦ ex
        | inr shared ↦
            let start : Reply W = record {
              cycle = a.cycle;
              entry = d;
              writeback = false;
              world = w;
            } in
            let was : some start ≡ some r =
              subst
                (λ q.
                  (if q then sent k invalidate a.cycle a invx d false w else some start) ≡ some r)
                shared first in
            let off = ap (λ q. q.writeback) (some-injective _ _ was) in cc
      ]

  pub gets-outcome :
      process_access k invalidate gets a child_state d false w ≡ some g
      → (g.reply.writeback ≡ true → is_exclusive d ≡ true)
        × (is_exclusive g.reply.entry ≡ true → a.have_exclusive ≡ true)
  unfolding process_access
  gets-outcome run =
      elim (Bool-cases (is_empty d && a.have_exclusive && not (has_flag a.flags noexcl))) [
        | inl p ↦
            let e = some-injective _ _ (
              subst (λ q. (if q then some alone else give_shared k invalidate a d false w) ≡ some g)
                p run) in
            let off = ap (λ q. q.reply.writeback) e in (λ on. cc, λ z. ground (arith, p))
        | inr p ↦
            let (x, y) = shared-outcome (
              subst (λ q. (if q then some alone else give_shared k invalidate a d false w) ≡ some g)
                p run) in
            (x, λ z. cc)
      ]
    where
      alone : Grant W
      alone = record {
        reply = record {
          cycle = a.cycle;
          entry = record {
            sharers = write d.sharers a.child_id true;
            num_sharers = 1;
            exclusive = true;
          };
          writeback = false;
          world = w;
        };
        child_state = MesiState.e;
      }
