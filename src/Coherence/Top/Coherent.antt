-- ===== src/Coherence/Top/Coherent.antt =====
-- zsim/src/coherence_ctrls.cpp, MESITopCC: the directory against the children's states, over their
-- requests.
use csce614_group_project.Base.{
  ℕ, ◌≤◌, ◌<◌, ◌≡◌, ◌≢◌, refl, Bool, true, false, ◌&&◌, some, write, ◌==◌, ltb, arith, inl, inr,
  Bool-cases, sub32,
}
use csce614_group_project.Hierarchy.{
  AccessType, gets, getx, puts, putx, MesiState, is_i, is_owner, is_m, has_flag, putx_keepexcl,
}
use csce614_group_project.Coherence.Top.{
  Children, Entry, Call, Grant, is_exclusive, remove_sharer, keep_exclusive, process_access,
}
use csce614_group_project.Coherence.Top.Directory.{invalidate_child, IsCoherent}
use csce614_group_project.Coherence.Top.Count.{count-le, count_pos, count_two, count-write}
use csce614_group_project.Coherence.Top.Send.{Tracks}

-- The requests that a child's bottom controller makes in each state.
abbrev pub Legal : AccessType → MesiState → Type 0
Legal gets st = is_i st ≡ true
Legal getx st = is_owner st ≡ false
Legal puts st = (is_i st ≡ false) × (is_m st ≡ false)
Legal putx st = is_m st ≡ true

-- What the child is given.
abbrev pub Granted : AccessType → MesiState → Type 0
Granted gets st = (is_i st ≡ false) × (is_m st ≡ false)
Granted getx st = is_m st ≡ true
Granted puts st = is_i st ≡ true
Granted putx st = is_m st ≡ false

module _ (n : ℕ) (d : Entry) (states : ℕ → MesiState) (v : IsCoherent n d states) where
  pub in_range : (c : ℕ) → d.sharers c ≡ true → c < n
  in_range c h = elim (Bool-cases (ltb c n)) [
    | inl below ↦ ground arith
    | inr above ↦
        let invalid = v.outside c (ground arith) in
        let held = v.holders c in
        let no : d.sharers c ≡ false = rw (held, invalid) refl in ground (arith, no)
  ]

  pub Tracks-IsCoherent : Tracks n d states
  Tracks-IsCoherent = record {
    in_range = in_range;
    counted = v.counted;
    hold = λ c h. ground (arith, v.holders c);
  }

  -- Two children never share a line that one of them owns.
  pub owner_alone : (c other : ℕ) → is_owner (states c) ≡ true → c ≢ other → d.sharers other ≡ false
  unfolding is_exclusive
  owner_alone c other own ne = elim (Bool-cases (d.sharers other)) [
    | inr out ↦ out
    | inl also ↦
        let mine : d.sharers c ≡ true = ground (arith, v.owners c) in
        let two =
          count_two n 0 c other d.sharers (omega arith) (omega (arith, in_range c mine))
            (omega arith) (omega (arith, in_range other also)) ne mine also in
        absurd (ground (arith, v.owners c, v.counted, two))
  ]

  -- With no sharer there is no copy.
  pub alone : d.num_sharers ≡ 0 → (c : ℕ) → d.sharers c ≡ false
  alone h c = elim (Bool-cases (d.sharers c)) [
    | inr out ↦ out
    | inl mine ↦ absurd (
        omega (
          arith,
          v.counted,
          count_pos n 0 c d.sharers (omega arith) (omega (arith, in_range c mine)) mine,
        ))
  ]

-- What a step must show of the new entry and states.
module _ (k : Children) (lat : ℕ) (a : Call) (d : Entry) (writeback : Bool) (states : ℕ → MesiState)
    (v : IsCoherent k.num_children d states) (child : a.child_id < k.num_children) where
  -- The outcome of a request: no assertion failed, the child is answered, the directory is true.
  abbrev pub Serves : AccessType → Type 0
  Serves type =
      (g : Grant (ℕ → MesiState)) × (process_access k (invalidate_child lat) type a
          (states a.child_id) d writeback states
        ≡ some g)
      × Granted type g.child_state
      × IsCoherent k.num_children (g.reply).entry (write (g.reply).world a.child_id g.child_state)

  gone : Entry
  gone = record d {
    sharers = write d.sharers a.child_id false;
    num_sharers = sub32 d.num_sharers 1;
  }

  -- Where two children share the line, nobody owns it.
  shared_pair :
      (c : ℕ)
      → c ≢ a.child_id
      → d.sharers a.child_id ≡ true
      → d.sharers c ≡ true
      → (d.exclusive ≡ false) × (is_owner (states c) ≡ false)
  unfolding is_exclusive
  shared_pair c ne mine also =
      let two =
        count_two k.num_children 0 c a.child_id d.sharers (omega arith)
          (omega (arith, in_range k.num_children d states v c also)) (omega arith)
          (omega (arith, child)) ne also mine in
      (v.one_owner (omega (arith, two, v.counted)), ground (arith, v.owners c, two, v.counted))

  gone_owners :
      d.sharers a.child_id ≡ true
      → (c : ℕ)
      → is_owner (write states a.child_id MesiState.i c)
        ≡ (write d.sharers a.child_id false c && is_exclusive gone)
  unfolding gone is_exclusive
  gone_owners mine c = elim (Bool-cases (c == a.child_id)) [
    | inl same ↦ rw same
    | inr other ↦ elim (Bool-cases (d.sharers c)) [
      | inl also ↦ ground (arith, shared_pair c (ground arith) mine also)
      | inr out ↦ ground (arith, v.owners c)
    ]
  ]

  gone-IsCoherent :
      d.sharers a.child_id ≡ true
      → IsCoherent k.num_children gone (write states a.child_id MesiState.i)
  unfolding gone is_exclusive
  gone-IsCoherent mine =
      let counts =
        count-write k.num_children 0 a.child_id false d.sharers (omega arith)
          (omega (arith, child)) in
      let small = count-le k.num_children 0 d.sharers in
      let pos : 1 ≤ d.num_sharers = omega (
        arith,
        v.counted,
        count_pos k.num_children 0 a.child_id d.sharers (omega arith) (omega (arith, child)) mine,
      ) in
      record {
        some_bound = v.some_bound;
        holders = λ c. ground (arith, v.holders c);
        outside = λ c h. ground (arith, v.outside c h);
        counted = ground (arith, v.counted, counts, mine, pos, small, v.some_bound);
        one_owner = λ h. v.one_owner (omega (arith, pos, small, v.counted, v.some_bound));
        owners = gone_owners mine;
      }

  pub serve_puts : Legal puts (states a.child_id) → Serves puts
  unfolding process_access gone remove_sharer
  serve_puts legal =
      let mine : d.sharers a.child_id ≡ true = ground (arith, v.holders a.child_id) in
      (
        record {
          reply = record { cycle = a.cycle; entry = gone; writeback = writeback; world = states };
          child_state = MesiState.i;
        },
        rw mine,
        refl,
        gone-IsCoherent mine,
      )

  pub serve_putx : Legal putx (states a.child_id) → Serves putx
  unfolding process_access gone is_exclusive remove_sharer keep_exclusive
  serve_putx legal =
      let own : is_owner (states a.child_id) ≡ true = ground arith in
      let mine : d.sharers a.child_id ≡ true = ground (arith, v.owners a.child_id) in
      let one : (d.num_sharers == 1) ≡ true = ground (arith, v.owners a.child_id) in
      let flag : d.exclusive ≡ true = ground (arith, v.owners a.child_id) in
      elim (Bool-cases (has_flag a.flags putx_keepexcl)) [
        | inr leaves ↦ (
          record {
            reply = record { cycle = a.cycle; entry = gone; writeback = writeback; world = states };
            child_state = MesiState.i;
          },
          rw (one, flag, leaves, mine),
          refl,
          gone-IsCoherent mine,
        )
        | inl keeps ↦ (
          record {
            reply = record { cycle = a.cycle; entry = d; writeback = writeback; world = states };
            child_state = MesiState.e;
          },
          rw (one, flag, keeps, mine, legal),
          refl,
          record {
            some_bound = v.some_bound;
            holders = λ c. ground (arith, v.holders c);
            outside = λ c h. ground (arith, v.outside c h);
            counted = v.counted;
            one_owner = v.one_owner;
            owners = λ c. ground (arith, v.owners c);
          },
        )
      ]
