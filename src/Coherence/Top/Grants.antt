-- ===== src/Coherence/Top/Grants.antt =====
-- The requests that give a child the line: GETS and GETX.
use mathlib.Core.Path.{fun_ext, ap}
use csce614_group_project.Base.{
  ℕ, ◌≤◌, ◌<◌, ◌≡◌, refl, Bool, true, false, not, ◌&&◌, some, write, if◌then◌else◌, arith, inl, inr,
  Bool-cases, ◌∙◌, add32,
}
use csce614_group_project.Hierarchy.{gets, MesiState, is_i, is_owner, has_flag, noexcl}
use csce614_group_project.Coherence.Top.{
  Children, Entry, Call, Grant, is_exclusive, is_empty, sent, give_shared, process_access,
}
use csce614_group_project.Coherence.Top.Directory.{invalidate_child, count, IsCoherent}
use csce614_group_project.Coherence.Top.Count.{count-le, count-write}
use csce614_group_project.Coherence.Top.Send.{send_invx}
use csce614_group_project.Coherence.Top.Coherent.{Legal, Tracks-IsCoherent, alone, in_range, Serves}

not_owner : (st : MesiState) → is_i st ≡ true → is_owner st ≡ false
not_owner MesiState.i h = refl
not_owner MesiState.s h = cc
not_owner MesiState.e h = cc
not_owner MesiState.m h = cc

owner_held : (st : MesiState) → is_owner st ≡ true → is_i st ≡ false
owner_held MesiState.i h = cc
owner_held MesiState.s h = cc
owner_held MesiState.e h = refl
owner_held MesiState.m h = refl

and_false : (b : Bool) → (b && false) ≡ false
and_false b = ground arith

module _ (k : Children) (lat : ℕ) (a : Call) (d : Entry) (writeback : Bool) (states : ℕ → MesiState)
    (v : IsCoherent k.num_children d states) (child : a.child_id < k.num_children) where
  outsider : is_i (states a.child_id) ≡ true → d.sharers a.child_id ≡ false
  outsider h = ground (arith, v.holders a.child_id)

  -- A new sharer beside copies that nobody owns.
  joined :
      (d1 : Entry) (w : ℕ → MesiState)
      → is_i (states a.child_id) ≡ true
      → ((c : ℕ) → d1.sharers c ≡ d.sharers c)
      → d1.num_sharers ≡ d.num_sharers
      → ((c : ℕ) → is_i (w c) ≡ is_i (states c))
      → ((c : ℕ) → is_owner (w c) ≡ false)
      → ((c : ℕ) → k.num_children ≤ c → w c ≡ MesiState.i)
      → count k.num_children 0 d1.sharers ≡ count k.num_children 0 d.sharers
      → IsCoherent k.num_children
          (record {
            sharers = write d1.sharers a.child_id true;
            num_sharers = add32 d1.num_sharers 1;
            exclusive = false;
          })
          (write w a.child_id MesiState.s)
  unfolding is_exclusive
  joined d1 w legal same same_num copies free outside recount =
      let counts =
        count-write k.num_children 0 a.child_id true d1.sharers (omega arith)
          (omega (arith, child)) in
      let small = count-le k.num_children 0 (write d1.sharers a.child_id true) in
      let away : d1.sharers a.child_id ≡ false = same a.child_id ∙ outsider legal in
      record {
        some_bound = v.some_bound;
        holders = λ c. ground (arith, v.holders c, same c, copies c);
        outside = λ c h. ground (arith, outside c h);
        counted = ground (arith, v.counted, counts, away, small, v.some_bound, recount, same_num);
        one_owner = λ h. refl;
        owners = λ c. ground (arith, free c);
      }

  -- A line that nobody holds is given exclusively.
  given_alone :
      d.num_sharers ≡ 0
      → (st : MesiState) → is_owner st ≡ true
      → IsCoherent k.num_children
          (record { sharers = write d.sharers a.child_id true; num_sharers = 1; exclusive = true })
          (write states a.child_id st)
  unfolding is_exclusive
  given_alone empty st own =
      let free = alone k.num_children d states v empty in
      let counts =
        count-write k.num_children 0 a.child_id true d.sharers (omega arith)
          (omega (arith, child)) in
      record {
        some_bound = v.some_bound;
        holders = λ c. ground (arith, v.holders c, owner_held st own);
        outside = λ c h. ground (arith, v.outside c h);
        counted = ground (arith, v.counted, counts, free a.child_id);
        one_owner = λ h. absurd (omega arith);
        owners = λ c. ground (arith, v.owners c, free c);
      }

  owned_by_sharers :
      is_exclusive d ≡ true → (c : ℕ) → d.sharers c ≡ true → is_owner (states c) ≡ true
  owned_by_sharers ex c h = v.owners c ∙ (rw (h, ex))

  abbrev Joined : Grant (ℕ → MesiState) → Type 0
  Joined g =
      (g.child_state ≡ MesiState.s)
      × IsCoherent k.num_children (g.reply).entry (write (g.reply).world a.child_id g.child_state)

  shut : (d' : Entry) → d'.exclusive ≡ false → is_exclusive d' ≡ false
  unfolding is_exclusive
  shut d' h = ground (arith, h)

  -- A copy after the downgrade of all sharers.
  abbrev DowngradedAt : ℕ → MesiState → Type 0
  DowngradedAt c st = st ≡ (if d.sharers c then MesiState.s else states c)

  same_copy : (c : ℕ) (st : MesiState) → DowngradedAt c st → is_i st ≡ is_i (states c)
  same_copy c st h = elim (Bool-cases (d.sharers c)) [
    | inl mine ↦
        let at : st ≡ MesiState.s = rw mine at h in rw at (ground (arith, v.holders c, mine))
    | inr out ↦ let at : st ≡ states c = rw out at h in rw at
  ]

  no_owner : (c : ℕ) (st : MesiState) → DowngradedAt c st → is_owner st ≡ false
  no_owner c st h = elim (Bool-cases (d.sharers c)) [
    | inl mine ↦ let at : st ≡ MesiState.s = rw mine at h in rw at
    | inr out ↦ let at : st ≡ states c = rw out at h in rw at (ground (arith, v.owners c, out))
  ]

  stays_out : (c : ℕ) (st : MesiState) → DowngradedAt c st → k.num_children ≤ c → st ≡ MesiState.i
  stays_out c st h far = elim (Bool-cases (d.sharers c)) [
    | inl mine ↦ absurd (omega (arith, in_range k.num_children d states v c mine))
    | inr out ↦ let at : st ≡ states c = rw out at h in at ∙ v.outside c far
  ]

  -- The owner is downgraded, and both hold the line in S.
  join_owner :
      Legal gets (states a.child_id)
      → is_exclusive d ≡ true
      → (g : Grant (ℕ → MesiState)) × (give_shared k (invalidate_child lat) a d writeback states
          ≡ some g)
        × Joined g
  unfolding give_shared sent
  join_owner legal ex =
      let t = Tracks-IsCoherent k.num_children d states v in
      let (r, run, down) =
        send_invx k lat a.line_addr a.cycle a.src_id d states writeback t ex
          (owned_by_sharers ex) in
      let after = shut (r.entry) down.exclusive in
      (
        record {
          reply = record r {
            entry = record {
              sharers = write (r.entry).sharers a.child_id true;
              num_sharers = add32 (r.entry).num_sharers 1;
              exclusive = false;
            };
          };
          child_state = MesiState.s;
        },
        rw (outsider legal, ex, run, after),
        (
          refl,
          joined (r.entry) r.world legal down.sharers down.num_sharers
              (λ c. same_copy c (r.world c) (down.holds c))
              (λ c. no_owner c (r.world c) (down.holds c))
              (λ c h. stays_out c (r.world c) (down.holds c) h)
              (ap (count k.num_children 0) (fun_ext down.sharers)),
        ),
      )

  -- Nobody owns the line, and the child holds it in S.
  join_sharers :
      Legal gets (states a.child_id)
      → is_exclusive d ≡ false
      → (g : Grant (ℕ → MesiState)) × (give_shared k (invalidate_child lat) a d writeback states
          ≡ some g)
        × Joined g
  unfolding give_shared
  join_sharers legal ex = (
    record {
      reply = record {
        cycle = a.cycle;
        entry = record {
          sharers = write d.sharers a.child_id true;
          num_sharers = add32 d.num_sharers 1;
          exclusive = false;
        };
        writeback = writeback;
        world = states;
      };
      child_state = MesiState.s;
    },
    rw (outsider legal, ex, ex),
    (
      refl,
      joined d states legal (λ c. refl) refl (λ c. refl)
          (λ c. v.owners c ∙ (rw ex (and_false (d.sharers c)))) (λ c h. v.outside c h) refl,
    ),
  )

  join :
      Legal gets (states a.child_id)
      → (g : Grant (ℕ → MesiState)) × (give_shared k (invalidate_child lat) a d writeback states
          ≡ some g)
        × Joined g
  join legal = elim (Bool-cases (is_exclusive d)) [
    | inl ex ↦ join_owner legal ex
    | inr ex ↦ join_sharers legal ex
  ]

  pub serve_gets : Legal gets (states a.child_id) → Serves k lat a d writeback states v child gets
  unfolding process_access is_empty
  serve_gets legal =
      elim (Bool-cases (is_empty d && a.have_exclusive && not (has_flag a.flags noexcl))) [
        | inl alone_here ↦ (
          record {
            reply = record {
              cycle = a.cycle;
              entry = record {
                sharers = write d.sharers a.child_id true;
                num_sharers = 1;
                exclusive = true;
              };
              writeback = writeback;
              world = states;
            };
            child_state = MesiState.e;
          },
          rw alone_here,
          (refl, refl),
          given_alone (ground arith) MesiState.e refl,
        )
        | inr others ↦ let (g, run, (st, w)) = join legal in (g, rw others run, (rw st, rw st), w)
      ]
