-- ===== src/Coherence/Top/Swmr.antt =====
-- A line over time: any sequence of the children's requests, silent upgrades, invalidations from
-- above and evictions.
use mathlib.Core.Option.{some-injective}
use csce614_group_project.Base.{
  ℕ, ◌<◌, ◌≡◌, ◌≢◌, refl, Bool, true, false, some, write, arith, u32_mod, ◌∙◌, sym,
}
use csce614_group_project.Hierarchy.{
  AccessType, gets, getx, puts, putx, MesiState, InvReq, is_owner,
}
use csce614_group_project.Coherence.Top.{
  Children, Entry, clear, Reply, Call, Grant, process_access, process_inval, process_eviction,
}
use csce614_group_project.Coherence.Top.Directory.{invalidate_child, IsCoherent}
use csce614_group_project.Coherence.Top.Count.{count_none}
use csce614_group_project.Coherence.Top.Coherent.{
  Legal, owner_alone, Serves, serve_puts, serve_putx,
}
use csce614_group_project.Coherence.Top.Grants.{serve_gets}
use csce614_group_project.Coherence.Top.Upgrade.{serve_getx}
use csce614_group_project.Coherence.Top.Invals.{process_inval-Sends, process_eviction-Empties}

-- A request that the child makes in its state, with the parent's permission where it needs it.
pub record IsLegal (k : Children) (type : AccessType) (a : Call) (states : ℕ → MesiState)
    : Type 0 where
  pub child : a.child_id < k.num_children
  pub legal : Legal type (states a.child_id)
  pub permitted : type ≡ getx → a.have_exclusive ≡ true

pub process_access-Serves :
    (k : Children) (lat : ℕ) (type : AccessType) (a : Call) (d : Entry) (writeback : Bool)
    (states : ℕ → MesiState) (v : IsCoherent k.num_children d states) (l : IsLegal k type a states)
    → Serves k lat a d writeback states v l.child type
process_access-Serves k lat gets a d writeback states v l =
    serve_gets k lat a d writeback states v l.child l.legal
process_access-Serves k lat getx a d writeback states v l =
    serve_getx k lat a d writeback states v l.child l.legal (l.permitted refl)
process_access-Serves k lat puts a d writeback states v l =
    serve_puts k lat a d writeback states v l.child l.legal
process_access-Serves k lat putx a d writeback states v l =
    serve_putx k lat a d writeback states v l.child l.legal

-- the entry of a line, and the state of each child's copy
pub record Line : Type 0 where
  pub entry : Entry
  pub states : ℕ → MesiState

unfoldable pub start : Line
start = record { entry = clear; states = λ c. MesiState.i }

pub after_reply : Reply (ℕ → MesiState) → Line
after_reply r = record { entry = r.entry; states = r.world }

unfoldable pub after_grant : Call → Grant (ℕ → MesiState) → Line
after_grant a g = record {
  entry = (g.reply).entry;
  states = write (g.reply).world a.child_id g.child_state;
}

module _ (k : Children) where
  pub data Step (l : Line) : Line → Type 0 where
    request :
        (lat : ℕ) (type : AccessType) (a : Call) (writeback : Bool)
        → IsLegal k type a l.states
        → (g : Grant (ℕ → MesiState))
        → process_access k
            (invalidate_child lat)
            type
            a
            (l.states a.child_id)
            l.entry
            writeback
            l.states
          ≡ some g
        → Step l (after_grant a g)
    silent_upgrade :
        (c : ℕ)
        → l.states c ≡ MesiState.e
        → Step l (record l { states = write l.states c MesiState.m })
    invalidation :
        (lat : ℕ) (req : InvReq) (writeback : Bool) (r : Reply (ℕ → MesiState))
        → process_inval k (invalidate_child lat) req l.entry writeback l.states ≡ some r
        → Step l (after_reply r)
    eviction :
        (lat line_addr cycle src_id : ℕ) (writeback : Bool) (r : Reply (ℕ → MesiState))
        → process_eviction k
            (invalidate_child lat)
            line_addr
            l.entry
            writeback
            cycle
            src_id
            l.states
          ≡ some r
        → Step l (after_reply r)

  pub data Reach : Line → Type 0 where
    at_start : Reach start
    then_step : (l l' : Line) → Reach l → Step l l' → Reach l'

  abbrev True : Line → Type 0
  True l = IsCoherent k.num_children l.entry l.states

  step-True : (l l' : Line) → k.nonincl_hack ≡ false → True l → Step l l' → True l'
  unfolding after_grant after_reply
  step-True l _ incl v (request lat type a writeback legal g run) =
      let (g', run', _, w) =
        process_access-Serves k lat type a l.entry writeback l.states v legal in
      let same : g' ≡ g = some-injective _ _ (sym run' ∙ run) in rw⁻¹ same w
  step-True l _ incl v (silent_upgrade c held) = record {
    some_bound = v.some_bound;
    holders = λ j. ground (arith, v.holders j, v.holders c);
    outside = λ j h. ground (arith, v.outside j h, v.outside c);
    counted = v.counted;
    one_owner = v.one_owner;
    owners = λ j. ground (arith, v.owners j, v.owners c);
  }
  step-True l _ incl v (invalidation lat req writeback r run) =
      let (r', run', w) = process_inval-Sends k lat l.entry l.states writeback v incl req in
      let same : r' ≡ r = some-injective _ _ (sym run' ∙ run) in rw⁻¹ same w
  step-True l _ incl v (eviction lat line_addr cycle src_id writeback r run) =
      let (r', run', w, _) =
        process_eviction-Empties k lat l.entry l.states writeback v incl line_addr cycle src_id in
      let same : r' ≡ r = some-injective _ _ (sym run' ∙ run) in rw⁻¹ same w

  pub start-True : k.num_children < u32_mod → True start
  unfolding start clear
  start-True few = record {
    some_bound = few;
    holders = λ c. refl;
    outside = λ c h. refl;
    counted = sym (count_none k.num_children 0 clear.sharers (λ j. refl));
    one_owner = λ h. absurd (omega arith);
    owners = λ c. refl;
  }

  -- Whatever happens to a line of an inclusive cache, its directory entry stays true.
  pub Reach-True : k.nonincl_hack ≡ false → k.num_children < u32_mod → (l : Line) → Reach l → True l
  Reach-True incl few _ at_start = start-True few
  Reach-True incl few _ (then_step l l' reach step) =
      step-True l l' incl (Reach-True incl few l reach) step

-- Single writer, with fewer than 2^32 children: in every state that the events of an inclusive cache
-- lead to, where one child holds the line in E or M, every other child's copy is invalid.
pub single_writer :
    (k : Children)
    → k.nonincl_hack ≡ false
    → k.num_children < u32_mod
    → (l : Line) → Reach k l
    → (c other : ℕ) → is_owner (l.states c) ≡ true
    → c ≢ other
    → l.states other ≡ MesiState.i
single_writer k incl few l reach c other own ne =
    let v = Reach-True k incl few l reach in
    let out = owner_alone k.num_children l.entry l.states v c other own ne in
    ground (arith, v.holders other)
