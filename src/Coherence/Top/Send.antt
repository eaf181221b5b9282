-- ===== src/Coherence/Top/Send.antt =====
-- zsim/src/coherence_ctrls.cpp: `sendInvalidates` over terminal children, and what it leaves.
use csce614_group_project.Base.{
  ℕ, ◌≤◌, ◌<◌, ◌≡◌, refl, Bool, true, false, some, ◌==◌, if◌then◌else◌, arith, inl, inr, Bool-cases,
}
use csce614_group_project.Hierarchy.{MesiState, i, s, InvReq, InvType, inv, invx, is_i, is_owner}
use csce614_group_project.Coherence.Bottom.{inval_line}
use csce614_group_project.Coherence.Top.{
  Children, Entry, Reply, Sending, is_exclusive, send_invalidates,
}
use csce614_group_project.Coherence.Top.Directory.{invalidate_child, count}
use csce614_group_project.Coherence.Top.Count.{count_pos}
use csce614_group_project.Coherence.Top.Loop.{send_all-Sent}

-- The sharers are children, they are counted, and each holds the line.
pub record Tracks (n : ℕ) (d : Entry) (states : ℕ → MesiState) : Type 0 where
  pub in_range : (c : ℕ) → d.sharers c ≡ true → c < n
  pub counted : d.num_sharers ≡ count n 0 d.sharers
  pub hold : (c : ℕ) → d.sharers c ≡ true → is_i (states c) ≡ false

inval_held :
    (st : MesiState) → is_i st ≡ false → (pulled : Bool) × (inval_line inv st ≡ some (pulled, i))
unfolding inval_line
inval_held MesiState.i h = cc
inval_held MesiState.s h = (false, refl)
inval_held MesiState.e h = (false, refl)
inval_held MesiState.m h = (true, refl)

invx_owned :
    (st : MesiState)
    → is_owner st ≡ true
    → (pulled : Bool) × (inval_line invx st ≡ some (pulled, s))
unfolding inval_line
invx_owned MesiState.i h = cc
invx_owned MesiState.s h = cc
invx_owned MesiState.e h = (false, refl)
invx_owned MesiState.m h = (true, refl)

module _ (k : Children) (lat line_addr cycle src_id : ℕ) (d : Entry) (states : ℕ → MesiState)
    (writeback : Bool) (t : Tracks k.num_children d states) where
  abbrev req_of : InvType → InvReq
  req_of type = record { line_addr = line_addr; type = type; cycle = cycle; src_id = src_id }

  abbrev start : Sending (ℕ → MesiState)
  start = record {
    sharers = d.sharers;
    max_cycle = cycle;
    sent_invs = 0;
    writeback = writeback;
    world = states;
  }

  -- After INV: no sharer is left, and every sharer's copy is invalid.
  pub record Cleared (r : Reply (ℕ → MesiState)) : Type 0 where
    pub sharers : (c : ℕ) → (r.entry).sharers c ≡ false
    pub num_sharers : (r.entry).num_sharers ≡ 0
    pub holds : (c : ℕ) → r.world c ≡ (if d.sharers c then i else states c)
    pub later : cycle ≤ r.cycle

  no_sharer : d.num_sharers ≡ 0 → (c : ℕ) → d.sharers c ≡ false
  no_sharer h c = elim (Bool-cases (d.sharers c)) [
    | inl shared ↦ absurd (
        omega (
          arith,
          t.counted,
          count_pos k.num_children 0 c d.sharers (omega arith) (omega (arith, t.in_range c shared))
              shared,
        ))
    | inr out ↦ out
  ]

  pub send_inv :
      (r : Reply (ℕ → MesiState)) × (send_invalidates k
          (invalidate_child lat)
          (req_of inv)
          d
          writeback
          states
        ≡ some r)
      × Cleared r
  unfolding send_invalidates
  send_inv = elim (Bool-cases (d.num_sharers == 0)) [
    | inl none_left ↦
        let out = no_sharer (ground arith) in
        (
          record { cycle = cycle; entry = d; writeback = writeback; world = states },
          rw none_left,
          record {
            sharers = out;
            num_sharers = ground arith;
            holds = λ c. ground (arith, out c);
            later = omega arith;
          },
        )
    | inr left ↦
        let (st, run, sent) =
          send_all-Sent k lat (req_of inv) k.num_children 0 start
            (λ j _ shared. inval_held (states j) (t.hold j shared)) in
        let all : (st.sent_invs == d.num_sharers) ≡ true =
          ground (arith, sent.sent_invs, t.counted) in
        (
          record {
            cycle = st.max_cycle;
            entry = record d { sharers = st.sharers; num_sharers = 0 };
            writeback = st.writeback;
            world = st.world;
          },
          rw (left, run, all),
          record {
            sharers = λ c. ground (arith, sent.sharers c, t.in_range c);
            num_sharers = refl;
            holds = λ c. ground (arith, sent.states c, t.in_range c);
            later = sent.later;
          },
        )
  ]

  -- After INVX: the sharers stay, and hold the line in S.
  pub record Downgraded (r : Reply (ℕ → MesiState)) : Type 0 where
    pub sharers : (c : ℕ) → (r.entry).sharers c ≡ d.sharers c
    pub num_sharers : (r.entry).num_sharers ≡ d.num_sharers
    pub exclusive : (r.entry).exclusive ≡ false
    pub holds : (c : ℕ) → r.world c ≡ (if d.sharers c then s else states c)
    pub later : cycle ≤ r.cycle

  pub send_invx :
      is_exclusive d ≡ true
      → ((c : ℕ) → d.sharers c ≡ true → is_owner (states c) ≡ true)
      → (r : Reply (ℕ → MesiState)) × (send_invalidates k
            (invalidate_child lat)
            (req_of invx)
            d
            writeback
            states
          ≡ some r)
        × Downgraded r
  unfolding send_invalidates
  send_invx ex own =
      let (st, run, sent) =
        send_all-Sent k lat (req_of invx) k.num_children 0 start
          (λ j _ shared. invx_owned (states j) (own j shared)) in
      let one : (d.num_sharers == 1) ≡ true = ground arith in
      let flag : d.exclusive ≡ true = ground arith in
      let left : (d.num_sharers == 0) ≡ false = ground arith in
      let all : (st.sent_invs == d.num_sharers) ≡ true =
        ground (arith, sent.sent_invs, t.counted) in
      (
        record {
          cycle = st.max_cycle;
          entry = record d { sharers = st.sharers; exclusive = false };
          writeback = st.writeback;
          world = st.world;
        },
        rw (left, run, all, one, flag),
        record {
          sharers = λ c. ground (arith, sent.sharers c);
          num_sharers = refl;
          exclusive = refl;
          holds = λ c. ground (arith, sent.states c, t.in_range c);
          later = sent.later;
        },
      )
