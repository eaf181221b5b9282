-- ===== src/Repl/Ship/Laws.antt =====
-- zsim/src/ship_repl.h: the invariant of SHiP, and its victim.
use csce614_group_project.Base.{
  ℕ, ◌+◌, ◌-◌, ◌≤◌, ◌<◌, ◌≡◌, refl, true, some, List, [], ◌∷◌, Array, All, elem, arith, Bool-cases,
  ◌==◌, if◌then◌else◌, inl, inr,
}
use csce614_group_project.Hierarchy.{MemReq}
use csce614_group_project.Repl.Aging.{first_at, peak}
use csce614_group_project.Repl.Aging.Laws.{Found, search-Found, peak-le, le-peak, search_keeps}
use csce614_group_project.Repl.Policy.{Laws, IsCands, insert, Event, IsEvent, run, run_total}
use csce614_group_project.Repl.Ship.{
  Ship, ReplData, init, update, replaced, refill, rank, signature_of, train_victim,
  saturating_increment, saturating_decrement, rrpv_of, aged, policy, rrpv_max,
}

-- Values are at most RRPV::MAX, signatures index the counter table, counters fit a byte.
pub record Bounded (p : Ship) : Type 0 where
  pub values : (id : ℕ) → (p.repl_data id).rrpv ≤ 3
  pub signatures : (id : ℕ) → (p.repl_data id).signature < 16384
  pub counters : (k : ℕ) → p.shct k ≤ 255

pub init-Bounded : (num_lines : ℕ) → Bounded (init num_lines)
unfolding init
init-Bounded num_lines = record {
  values = λ id. ground arith;
  signatures = λ id. omega arith;
  counters = λ k. omega arith;
}

saturating_increment-le :
    (a : Array ℕ) (k : ℕ) → ((j : ℕ) → a j ≤ 255) → (j : ℕ) → saturating_increment a k 255 j ≤ 255
unfolding saturating_increment
saturating_increment-le a k h j = ground (arith, h j, h k)

saturating_decrement-le :
    (a : Array ℕ) (k : ℕ) → ((j : ℕ) → a j ≤ 255) → (j : ℕ) → saturating_decrement a k j ≤ 255
unfolding saturating_decrement
saturating_decrement-le a k h j = ground (arith, h j, h k)

module _ (hash : ℕ → ℕ) where
  pub signature_of-lt : (req : MemReq) → signature_of hash req < 16384
  unfolding signature_of
  signature_of-lt req = omega arith

  pub update-Bounded :
      (p : Ship) (id : ℕ) (req : MemReq) → Bounded p → Bounded (update hash p id req)
  unfolding update
  update-Bounded p id req v = record {
    values = λ j. ground (arith, v.values j);
    signatures = λ j. ground (arith, v.signatures j, signature_of-lt req);
    counters = saturating_increment-le p.shct (signature_of hash req) v.counters;
  }

  replaced-Bounded : (p : Ship) (id : ℕ) → Bounded p → Bounded (replaced p id)
  unfolding replaced
  replaced-Bounded p id v = record {
    values = λ j. ground (arith, v.values j);
    signatures = λ j. ground (arith, v.signatures j, v.signatures id);
    counters = v.counters;
  }

  pub refill-Bounded :
      (p : Ship) (id : ℕ) (req : MemReq) → Bounded p → Bounded (refill hash p id req)
  unfolding refill
  refill-Bounded p id req v = update-Bounded (replaced p id) id req (replaced-Bounded p id v)

  -- The decrement of the victim's counter, on the branch that the code takes.
  unfoldable pub trained : Ship → ℕ → ℕ → ℕ
  trained p best k =
      let d = p.repl_data best in
      if d.is_rereferenced then p.shct k else (if k == d.signature then p.shct k - 1 else p.shct k)

  -- What `rank` returns and leaves: the victim is the first candidate of the greatest value, every
  -- candidate is aged by what that value lacked, the victim alone gets the request's signature,
  -- and the counter of its old signature falls by one if the line was never re-referenced.
  pub record Evicts (p : Ship) (req : MemReq) (cs : List ℕ) (best : ℕ) (q : Ship) : Type 0 where
    pub picks : best ≡ first_at rrpv_of (peak rrpv_of p.repl_data cs) p.repl_data cs
    pub member : elem best cs ≡ true
    pub greatest : (p.repl_data best).rrpv ≡ peak rrpv_of p.repl_data cs
    pub aged :
        (j : ℕ)
        → (q.repl_data j).rrpv ≡ (
            if elem j cs
            then (p.repl_data j).rrpv + (3 - peak rrpv_of p.repl_data cs)
            else (p.repl_data j).rrpv)
    pub signed :
        (j : ℕ)
        → (q.repl_data j).signature
          ≡ (if j == best then signature_of hash req else (p.repl_data j).signature)
    pub flags_kept : (j : ℕ) → (q.repl_data j).is_rereferenced ≡ (p.repl_data j).is_rereferenced
    pub counters : (k : ℕ) → q.shct k ≡ trained p best k

  All-bound :
      (p : Ship) (cs : List ℕ) → Bounded p → All (λ c. rrpv_of (p.repl_data c) ≤ rrpv_max) cs
  All-bound p [] v = tt
  All-bound p (c ∷ cs) v = (v.values c, All-bound p cs v)

  -- The fields that aging does not touch.
  abbrev SameTags : Ship → ℕ → ReplData → Type 0
  SameTags p j d =
      (d.is_rereferenced ≡ (p.repl_data j).is_rereferenced)
      × (d.signature ≡ (p.repl_data j).signature)

  module _ (p : Ship) (req : MemReq) (cs : List ℕ) (best : ℕ) (lines : Array ReplData)
      (f : Found rrpv_of rrpv_max p.repl_data cs best lines)
      (tags : (j : ℕ) → SameTags p j (lines j)) where
    abbrev after : Ship
    after = (train_victim hash p req best lines).1

    after_aged :
        (j : ℕ)
        → (after.repl_data j).rrpv ≡ (
            if elem j cs
            then (p.repl_data j).rrpv + (3 - peak rrpv_of p.repl_data cs)
            else (p.repl_data j).rrpv)
    unfolding train_victim
    after_aged j = elim (Bool-cases (elem j cs)) [
      | inl h ↦ rw h (ground (arith, f.aged j h, f.member))
      | inr h ↦ rw h (ground (arith, f.kept j h, f.member))
    ]

    after_tags :
        (j : ℕ)
        → ((after.repl_data j).signature
            ≡ (if j == best then signature_of hash req else (p.repl_data j).signature))
          × ((after.repl_data j).is_rereferenced ≡ (p.repl_data j).is_rereferenced)
    unfolding train_victim
    after_tags j = ground (arith, tags j, tags best)

    after_counters : (k : ℕ) → after.shct k ≡ trained p best k
    unfolding train_victim trained saturating_decrement
    after_counters k = ground (arith, tags best)

    Evicts-after : Evicts p req cs best after
    Evicts-after = record {
      picks = f.picks;
      member = f.member;
      greatest = f.greatest;
      aged = after_aged;
      signed = λ j. (after_tags j).0;
      flags_kept = λ j. (after_tags j).1;
      counters = after_counters;
    }

  -- With arrays in range and proper candidates, `rank` ends within four rounds. The victim is the
  -- first candidate of the greatest value, every candidate is aged by what that value lacked of 3, the
  -- victim alone gets the request's signature, and the counter of its old signature falls by one, not
  -- below 0, if the line was never re-referenced.
  pub ship_rank-Evicts :
      (p : Ship) (req : MemReq) (cs : List ℕ)
      → Bounded p
      → IsCands cs
      → (best : ℕ) × (q : Ship) × (rank hash p req cs ≡ some (best, q)) × Evicts p req cs best q
  unfolding rank
  ship_rank-Evicts p req cs v ok =
      let le = peak-le rrpv_of rrpv_max p.repl_data cs (All-bound p cs v) in
      let (best, b, e, f) =
        search-Found rrpv_of aged rrpv_max (λ l h. omega arith) cs ok.nonempty ok.distinct ok.ids 4
          p.repl_data le (omega arith) in
      let tags =
        search_keeps rrpv_of aged (SameTags p) (λ j l h. h) 4 rrpv_max p.repl_data b cs best e
          (λ j. (refl, refl)) in
      (best, (train_victim hash p req best b).1, rw e, Evicts-after p req cs best b f tags)

  pub Evicts-Bounded :
      (p : Ship) (req : MemReq) (cs : List ℕ) (best : ℕ) (q : Ship)
      → Bounded p
      → Evicts p req cs best q
      → Bounded q
  unfolding trained
  Evicts-Bounded p req cs best q v r = record {
    values = λ j. ground (arith, r.aged j, v.values j, le-peak rrpv_of p.repl_data cs j);
    signatures = λ j. ground (arith, r.signed j, v.signatures j, signature_of-lt req);
    counters = λ k. ground (arith, r.counters k, v.counters k);
  }

  pub laws : Laws (policy hash)
  unfolding insert refill
  laws = record {
    Inv = Bounded;
    update_total = λ p id req v. (update hash p id req, refl, update-Bounded p id req v);
    insert_total = λ p id req v. (refill hash p id req, refl, refill-Bounded p id req v);
    rank_total = λ p req cs v ok.
        let (best, q, e, r) = ship_rank-Evicts p req cs v ok in
        (best, q, e, r.member, Evicts-Bounded p req cs best q v r);
  }

  -- From the constructor on, any sequence of hits and misses with proper candidates is served to
  -- the end. Then every value is at most 3, every signature below 16384, every counter at most 255.
  pub ship_run-Bounded :
      (num_lines : ℕ) (evs : List Event)
      → All IsEvent evs
      → (q : Ship) × (run (policy hash) (init num_lines) evs ≡ some q) × Bounded q
  unfolding laws
  ship_run-Bounded num_lines evs ok =
      run_total (policy hash) laws (init num_lines) evs ok (init-Bounded num_lines)
