-- ===== src/Coherence/Top/Loop.antt =====
-- The loop of `sendInvalidates` over terminal children: who is told, and what remains.
use csce614_group_project.Base.{
  ℕ, zero, suc, ◌+◌, ◌≤◌, ◌<◌, ◌≡◌, refl, Bool, true, false, ◌&&◌, ◌||◌, some, write, ltb, leb,
  if◌then◌else◌, arith, inl, inr, Bool-cases, add64, max,
}
use csce614_group_project.Hierarchy.{MesiState, i, s, InvReq, InvType, inv, invx, fwd}
use csce614_group_project.Coherence.Bottom.{inval_line}
use csce614_group_project.Coherence.Top.{Children, Sending, send_one, send_all, is_inv}
use csce614_group_project.Coherence.Top.Directory.{invalidate_child, count}

-- The state that an invalidation leaves.
abbrev pub target : InvType → MesiState
target inv = i
target invx = s
target fwd = s

abbrev pub within : ℕ → ℕ → ℕ → Bool
within c n j = leb c j && ltb j (c + n)

module _ (k : Children) (lat : ℕ) (req : InvReq) where
  abbrev St : Type 0
  St = Sending (ℕ → MesiState)

  -- What the rounds for the children `c` to `c + n - 1` leave.
  pub record Sent (n c : ℕ) (st st' : St) : Type 0 where
    pub sharers :
        (j : ℕ) → st'.sharers j ≡ (if within c n j && is_inv req.type then false else st.sharers j)
    pub states :
        (j : ℕ)
        → st'.world j ≡ (if within c n j && st.sharers j then target req.type else st.world j)
    pub sent_invs : st'.sent_invs ≡ st.sent_invs + count n c st.sharers
    pub later : st.max_cycle ≤ st'.max_cycle

  one_silent :
      (c : ℕ) (st : St)
      → st.sharers c ≡ false
      → send_one k (invalidate_child lat) req c st ≡ some st
  unfolding send_one
  one_silent c st h = rw h

  abbrev told : ℕ → St → Bool → St
  told c st pulled = record {
    sharers = (if is_inv req.type then write st.sharers c false else st.sharers);
    max_cycle = max (add64 (add64 req.cycle lat) (k.children_rtts c)) st.max_cycle;
    sent_invs = st.sent_invs + 1;
    writeback = st.writeback || pulled;
    world = write st.world c (target req.type);
  }

  one_told :
      (c : ℕ) (st : St) (pulled : Bool)
      → st.sharers c ≡ true
      → inval_line req.type (st.world c) ≡ some (pulled, target req.type)
      → send_one k (invalidate_child lat) req c st ≡ some (told c st pulled)
  unfolding send_one invalidate_child
  one_told c st pulled h allowed = rw (h, allowed)

  -- The children from `c` on are in a state in which the invalidation is allowed.
  abbrev Ready : ℕ → St → Type 0
  Ready c st =
      (j : ℕ)
      → c ≤ j
      → st.sharers j ≡ true
      → (pulled : Bool) × (inval_line req.type (st.world j) ≡ some (pulled, target req.type))

  told-Ready : (c : ℕ) (st : St) (pulled : Bool) → Ready c st → Ready (suc c) (told c st pulled)
  told-Ready c st pulled ok j above h =
      let old : st.sharers j ≡ true = ground arith in
      let (p, allowed) = ok j (omega arith) old in
      let same : write st.world c (target req.type) j ≡ st.world j = ground arith in
      (p, rw same allowed)

  count-told :
      (n c : ℕ) (st : St) (pulled : Bool) (from : ℕ)
      → c < from
      → count n from (told c st pulled).sharers ≡ count n from st.sharers
  unfolding count
  count-told zero c st pulled from h = refl
  count-told (suc n) c st pulled from h =
      ground (arith, count-told n c st pulled (suc from) (omega arith))

  Sent-silent :
      (n c : ℕ) (st st' : St) → st.sharers c ≡ false → Sent n (suc c) st st' → Sent (suc n) c st st'
  unfolding count
  Sent-silent n c st st' h r = record {
    sharers = λ j. ground (arith, r.sharers j);
    states = λ j. ground (arith, r.states j);
    sent_invs = ground (arith, r.sent_invs);
    later = r.later;
  }

  Sent-told :
      (n c : ℕ) (st st' : St) (pulled : Bool)
      → st.sharers c ≡ true
      → Sent n (suc c) (told c st pulled) st'
      → Sent (suc n) c st st'
  unfolding count
  Sent-told n c st st' pulled h r = record {
    sharers = λ j. ground (arith, r.sharers j);
    states = λ j. ground (arith, r.states j);
    sent_invs = ground (arith, r.sent_invs, count-told n c st pulled (suc c));
    later = omega (arith, r.later);
  }

  -- The rounds pass no assertion of a child, and leave that.
  pub send_all-Sent :
      (n c : ℕ) (st : St)
      → Ready c st
      → (st' : St) × (send_all k (invalidate_child lat) req n c st ≡ some st') × Sent n c st st'
  unfolding send_all count
  send_all-Sent zero c st ok = (
    st,
    refl,
    record {
      sharers = λ j. ground arith;
      states = λ j. ground arith;
      sent_invs = omega arith;
      later = omega arith;
    },
  )
  send_all-Sent (suc n) c st ok = elim (Bool-cases (st.sharers c)) [
    | inl h ↦
        let (pulled, allowed) = ok c (omega arith) h in
        let (st', run, r) =
          send_all-Sent n (suc c) (told c st pulled) (told-Ready c st pulled ok) in
        (st', rw (one_told c st pulled h allowed) run, Sent-told n c st st' pulled h r)
    | inr h ↦
        let (st', run, r) = send_all-Sent n (suc c) st (λ j above. ok j (omega arith)) in
        (st', rw (one_silent c st h) run, Sent-silent n c st st' h r)
  ]
