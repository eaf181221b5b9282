-- ===== src/Coherence/Top/Upgrade.antt =====
-- zsim/src/coherence_ctrls.cpp: GETX, and the other copies of its line.
use csce614_group_project.Base.{
  ℕ, ◌<◌, ◌≡◌, ◌≢◌, refl, Bool, true, false, not, ◌&&◌, some, write, ◌==◌, arith, inl, inr,
  Bool-cases, ◌∙◌, add32, sub32,
}
use csce614_group_project.Hierarchy.{getx, MesiState, is_owner}
use csce614_group_project.Coherence.Top.{
  Children, Entry, Reply, Call, is_exclusive, drop_upgrader, give_exclusive, process_access, sent,
}
use csce614_group_project.Coherence.Top.Directory.{invalidate_child, count, IsCoherent}
use csce614_group_project.Coherence.Top.Count.{count-le, count_pos, count_none, count-write}
use csce614_group_project.Coherence.Top.Send.{Tracks, send_inv, Cleared}
use csce614_group_project.Coherence.Top.Coherent.{Legal, in_range, Serves}

module _ (k : Children) (lat : ℕ) (a : Call) (d : Entry) (writeback : Bool) (states : ℕ → MesiState)
    (v : IsCoherent k.num_children d states) (child : a.child_id < k.num_children) where
  -- The others' copies, once the child is no longer a sharer.
  record Dropped (d' : Entry) : Type 0 where
    others : (c : ℕ) → d'.sharers c ≡ (not (c == a.child_id) && d.sharers c)
    counted : d'.num_sharers ≡ count k.num_children 0 d'.sharers

  not_exclusive :
      is_owner (states a.child_id) ≡ false → d.sharers a.child_id ≡ true → is_exclusive d ≡ false
  not_exclusive legal mine = ground (arith, v.owners a.child_id)

  drop_self :
      is_owner (states a.child_id) ≡ false
      → (d' : Entry) × (drop_upgrader k (invalidate_child lat) a d ≡ some d') × Dropped d'
  unfolding drop_upgrader
  drop_self legal = elim (Bool-cases (d.sharers a.child_id)) [
    | inl mine ↦
        let counts =
          count-write k.num_children 0 a.child_id false d.sharers (omega arith)
            (omega (arith, child)) in
        let small = count-le k.num_children 0 d.sharers in
        let pos =
          count_pos k.num_children 0 a.child_id d.sharers (omega arith) (omega (arith, child))
            mine in
        (
          record d {
            sharers = write d.sharers a.child_id false;
            num_sharers = sub32 d.num_sharers 1;
          },
          rw (mine, not_exclusive legal mine),
          record {
            others = λ c. ground arith;
            counted = ground (arith, v.counted, counts, mine, pos, small, v.some_bound);
          },
        )
    | inr out ↦ (d, rw out, record { others = λ c. ground (arith, out); counted = v.counted })
  ]

  module _ (d' : Entry) (dr : Dropped d') where
    Tracks-Dropped : Tracks k.num_children d' states
    Tracks-Dropped = record {
      in_range = λ c h. in_range k.num_children d states v c (ground (arith, dr.others c));
      counted = dr.counted;
      hold = λ c h. ground (arith, dr.others c, v.holders c);
    }

    module _ (r : Reply (ℕ → MesiState))
        (cleared : Cleared k lat a.line_addr a.cycle a.src_id d' states writeback Tracks-Dropped
          r) where
      -- Every other child has lost the line.
      lost : (c : ℕ) → c ≢ a.child_id → r.world c ≡ MesiState.i
      lost c ne = elim (Bool-cases (d.sharers c)) [
        | inl shared ↦
            let at : d'.sharers c ≡ true = ground (arith, dr.others c) in cleared.holds c ∙ (rw at)
        | inr out ↦
            let at : d'.sharers c ≡ false = ground (arith, dr.others c) in
            cleared.holds c ∙ (rw at (ground (arith, v.holders c)))
      ]

      given :
          IsCoherent k.num_children
            (record {
              sharers = write (r.entry).sharers a.child_id true;
              num_sharers = add32 (r.entry).num_sharers 1;
              exclusive = true;
            })
            (write r.world a.child_id MesiState.m)
      unfolding is_exclusive
      given =
          let counts =
            count-write k.num_children 0 a.child_id true (r.entry).sharers (omega arith)
              (omega (arith, child)) in
          let nobody = count_none k.num_children 0 (r.entry).sharers cleared.sharers in
          record {
            some_bound = v.some_bound;
            holders = λ c. ground (arith, lost c, cleared.sharers c);
            outside = λ c h. ground (arith, lost c, child);
            counted =
                ground (arith, cleared.num_sharers, counts, cleared.sharers a.child_id, nobody);
            one_owner = λ h. absurd (omega (arith, cleared.num_sharers));
            owners = λ c. ground (arith, lost c, cleared.sharers c, cleared.num_sharers);
          }

  pub serve_getx :
      Legal getx (states a.child_id)
      → a.have_exclusive ≡ true
      → Serves k lat a d writeback states v child getx
  unfolding process_access give_exclusive sent
  serve_getx legal have =
      let (d', drop, dr) = drop_self legal in
      let (r, run, cleared) =
        send_inv k lat a.line_addr a.cycle a.src_id d' states writeback (Tracks-Dropped d' dr) in
      (
        record {
          reply = record r {
            entry = record {
              sharers = write (r.entry).sharers a.child_id true;
              num_sharers = add32 (r.entry).num_sharers 1;
              exclusive = true;
            };
          };
          child_state = MesiState.m;
        },
        simp (have, drop, run, cleared.num_sharers),
        refl,
        given d' dr r cleared,
      )
