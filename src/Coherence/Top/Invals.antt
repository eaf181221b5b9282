-- ===== src/Coherence/Top/Invals.antt =====
-- zsim/src/coherence_ctrls.cpp: the invalidations that come from above, and the eviction of the line
-- (`processInval` and `processEviction`).
use mathlib.Core.Path.{fun_ext, ap}
use csce614_group_project.Base.{
  ℕ, ◌≡◌, refl, Bool, true, false, Option, some, if◌then◌else◌, arith, inl, inr, Bool-cases, ◌∙◌,
  sym,
}
use csce614_group_project.Hierarchy.{MesiState, InvReq, InvType, inv, invx, fwd, is_owner, is_i}
use csce614_group_project.Coherence.Top.{
  Children, Entry, Reply, is_exclusive, send_invalidates, process_inval, process_eviction,
}
use csce614_group_project.Coherence.Top.Directory.{invalidate_child, count, IsCoherent}
use csce614_group_project.Coherence.Top.Count.{count_none}
use csce614_group_project.Coherence.Top.Send.{Tracks, send_inv, Cleared, send_invx, Downgraded}
use csce614_group_project.Coherence.Top.Coherent.{Tracks-IsCoherent, in_range}

module _ (k : Children) (lat : ℕ) (d : Entry) (states : ℕ → MesiState) (writeback : Bool)
    (v : IsCoherent k.num_children d states) where
  -- The call passes no failed assertion, and the directory is true after it.
  abbrev pub Sends : Option (Reply (ℕ → MesiState)) → Type 0
  Sends run =
      (r : Reply (ℕ → MesiState)) × (run ≡ some r) × IsCoherent k.num_children r.entry r.world

  -- what an invalidation leaves of the copies
  abbrev pub Lowered : InvType → (ℕ → MesiState) → Type 0
  Lowered inv after = (c : ℕ) → after c ≡ MesiState.i
  Lowered invx after =
      (c : ℕ) → (is_owner (after c) ≡ false) × (is_i (states c) ≡ true → is_i (after c) ≡ true)
  Lowered fwd after = (c : ℕ) → after c ≡ states c

  abbrev pub Lowers : InvType → Option (Reply (ℕ → MesiState)) → Type 0
  Lowers type run =
      (r : Reply (ℕ → MesiState)) × (run ≡ some r)
      × IsCoherent k.num_children r.entry r.world
      × Lowered type r.world

  -- Such a call, after which no child holds the line.
  abbrev pub Empties : Option (Reply (ℕ → MesiState)) → Type 0
  Empties run =
      (r : Reply (ℕ → MesiState)) × (run ≡ some r)
      × IsCoherent k.num_children r.entry r.world
      × ((c : ℕ) → r.world c ≡ MesiState.i)

  held_by_sharers : (c : ℕ) → d.sharers c ≡ false → states c ≡ MesiState.i
  held_by_sharers c out = ground (arith, v.holders c)

  module _ (req : InvReq) where
    abbrev tracked : Tracks k.num_children d states
    tracked = Tracks-IsCoherent k.num_children d states v

    emptied :
        (r : Reply (ℕ → MesiState))
        → Cleared k lat req.line_addr req.cycle req.src_id d states writeback tracked r
        → (c : ℕ) → r.world c ≡ MesiState.i
    emptied r cl c = elim (Bool-cases (d.sharers c)) [
      | inl shared ↦ cl.holds c ∙ (rw shared)
      | inr out ↦ cl.holds c ∙ (rw out (held_by_sharers c out))
    ]

    Cleared-IsCoherent :
        (r : Reply (ℕ → MesiState))
        → Cleared k lat req.line_addr req.cycle req.src_id d states writeback tracked r
        → IsCoherent k.num_children r.entry r.world
    Cleared-IsCoherent r cl = record {
      some_bound = v.some_bound;
      holders = λ c. ground (arith, cl.sharers c, emptied r cl c);
      outside = λ c h. emptied r cl c;
      counted = cl.num_sharers ∙ sym (count_none k.num_children 0 (r.entry).sharers cl.sharers);
      one_owner = λ h. absurd (omega (arith, cl.num_sharers));
      owners = λ c. ground (arith, cl.sharers c, emptied r cl c);
    }

    inv-Empties :
        Empties
          (send_invalidates k (invalidate_child lat) (record req { type = inv }) d writeback states)
    inv-Empties =
        let (r, run, cl) =
          send_inv k lat req.line_addr req.cycle req.src_id d states writeback tracked in
        (r, run, Cleared-IsCoherent r cl, emptied r cl)

    owned : is_exclusive d ≡ true → (c : ℕ) → d.sharers c ≡ true → is_owner (states c) ≡ true
    owned ex c h = v.owners c ∙ (rw (h, ex))

    Downgraded-at :
        (r : Reply (ℕ → MesiState))
        → Downgraded k lat req.line_addr req.cycle req.src_id d states writeback tracked r
        → (c : ℕ) → (r.world c ≡ (if d.sharers c then MesiState.s else MesiState.i))
    Downgraded-at r down c = elim (Bool-cases (d.sharers c)) [
      | inl shared ↦ let at = down.holds c in at ∙ (rw shared)
      | inr out ↦ let at = down.holds c in at ∙ (rw out (held_by_sharers c out))
    ]

    Downgraded-IsCoherent :
        (r : Reply (ℕ → MesiState))
        → Downgraded k lat req.line_addr req.cycle req.src_id d states writeback tracked r
        → IsCoherent k.num_children r.entry r.world
    unfolding is_exclusive
    Downgraded-IsCoherent r down = record {
      some_bound = v.some_bound;
      holders = λ c. ground (arith, down.sharers c, Downgraded-at r down c);
      outside = λ c h. ground (arith, Downgraded-at r down c, in_range k.num_children d states v c);
      counted =
          down.num_sharers ∙ (v.counted ∙ sym (ap (count k.num_children 0) (fun_ext down.sharers)));
      one_owner = λ h. down.exclusive;
      owners = λ c. ground (arith, down.exclusive, Downgraded-at r down c);
    }

    invx-Lowers :
        Lowers invx (
          send_invalidates k (invalidate_child lat) (record req { type = invx }) d writeback states)
    unfolding send_invalidates
    invx-Lowers = elim (Bool-cases (is_exclusive d)) [
      | inl ex ↦
          let (r, run, down) =
            send_invx k lat req.line_addr req.cycle req.src_id d states writeback tracked ex
              (owned ex) in
          (
            r,
            run,
            Downgraded-IsCoherent r down,
            λ c. ground (arith, Downgraded-at r down c, v.holders c),
          )
      | inr shared ↦ (
        record { cycle = req.cycle; entry = d; writeback = writeback; world = states },
        rw shared,
        v,
        λ c. (ground (arith, v.owners c, shared), λ gone. gone),
      )
    ]

  inval_by_type :
      (type : InvType)
      → k.nonincl_hack ≡ false
      → (req : InvReq)
      → Lowers type
          (process_inval k (invalidate_child lat) (record req { type = type }) d writeback states)
  unfolding process_inval
  inval_by_type inv incl req = inv-Empties req
  inval_by_type invx incl req = invx-Lowers req
  inval_by_type fwd incl req = (
    record { cycle = req.cycle; entry = d; writeback = writeback; world = states },
    rw incl,
    v,
    λ c. refl,
  )

  -- What an invalidation does to the copies besides.
  pub process_inval-Lowers :
      k.nonincl_hack ≡ false
      → (req : InvReq)
      → Lowers req.type (process_inval k (invalidate_child lat) req d writeback states)
  process_inval-Lowers incl req = inval_by_type req.type incl req

  -- From a true directory, an inclusive cache answers every invalidation from above: no assertion
  -- fails, and the directory is true after it.
  pub process_inval-Sends :
      k.nonincl_hack ≡ false
      → (req : InvReq) → Sends (process_inval k (invalidate_child lat) req d writeback states)
  process_inval-Sends incl req = let (r, run, w, _) = inval_by_type req.type incl req in (r, run, w)

  -- From a true directory of an inclusive cache, an eviction passes no failed assertion, takes the
  -- line from every child, and leaves the directory true.
  pub process_eviction-Empties :
      k.nonincl_hack ≡ false
      → (line_addr cycle src_id : ℕ)
      → Empties
          (process_eviction k (invalidate_child lat) line_addr d writeback cycle src_id states)
  unfolding process_eviction
  process_eviction-Empties incl line_addr cycle src_id =
      let (r, run, w, lost) =
        inv-Empties
          (record { line_addr = line_addr; type = inv; cycle = cycle; src_id = src_id }) in
      (r, simp (incl, run), w, lost)
