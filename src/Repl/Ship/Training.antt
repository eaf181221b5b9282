-- ===== src/Repl/Ship/Training.antt =====
-- zsim/src/ship_repl.h: how the counters of SHiP move.
use mathlib.Core.Option.{some-injective}
use csce614_group_project.Base.{
  ℕ, ◌%◌, ◌+◌, ◌≤◌, ◌<◌, ◌∙◌, sym, subst, elem, ◌≡◌, refl, true, some, List, [], ◌∷◌, All, arith,
  ◌==◌, if◌then◌else◌,
}
use csce614_group_project.Hierarchy.{MemReq}
use csce614_group_project.Repl.Policy.{Event, hit, miss, IsEvent, serve, run}
use csce614_group_project.Repl.Ship.{
  Ship, init, update, refill, signature_of, saturating_increment, policy,
}
use csce614_group_project.Repl.Ship.Laws.{
  Bounded, ship_rank-Evicts, trained, Evicts-Bounded, ship_run-Bounded, refill-Bounded,
  update-Bounded,
}

-- The candidates of a miss are lines of the cache.
abbrev pub IsWithin : ℕ → Event → Type 0
IsWithin n (hit id req) = Unit
IsWithin n (miss req cs) = All (λ c. c < n) cs

within : (n best : ℕ) (cs : List ℕ) → All (λ c. c < n) cs → elem best cs ≡ true → best < n
within n best [] low h = cc
within n best (c ∷ cs) low h = ground (arith, low.0, within n best cs low.1)

module _ (hash : ℕ → ℕ) where
  -- On a miss, where `rank` has given the line the request's signature, the line ends with its
  -- re-reference bit set, the request's signature, and the value RRPV::MID if that signature's
  -- counter is 0, else RRPV::MIN; the counter of that signature goes up by one, up to 255.
  pub refill_line :
      (p : Ship) (id : ℕ) (req : MemReq)
      → (p.repl_data id).signature ≡ signature_of hash req
      → let q = refill hash p id req in
        let k = signature_of hash req in
        ((q.repl_data id).is_rereferenced ≡ true)
        × ((q.repl_data id).signature ≡ k)
        × ((q.repl_data id).rrpv ≡ (if p.shct k == 0 then 2 else 0))
        × (q.shct k ≡ (if p.shct k == 255 then 255 else (p.shct k + 1) % 256))
  unfolding refill saturating_increment
  refill_line p id req h = ground (arith, h)

  -- Every line of the cache has been filled or hit.
  abbrev pub AllReferenced : ℕ → Ship → Type 0
  AllReferenced n p = (j : ℕ) → j < n → (p.repl_data j).is_rereferenced ≡ true

  update-AllReferenced :
      (n : ℕ) (p : Ship) (id : ℕ) (req : MemReq)
      → AllReferenced n p
      → AllReferenced n (update hash p id req)
  unfolding update
  update-AllReferenced n p id req h j l = ground (arith, h j l)

  refill-AllReferenced :
      (n : ℕ) (p : Ship) (id : ℕ) (req : MemReq)
      → AllReferenced n p
      → AllReferenced n (refill hash p id req)
  unfolding refill
  refill-AllReferenced n p id req h j l = ground (arith, h j l)

  update-shct_le :
      (p : Ship) (id : ℕ) (req : MemReq)
      → Bounded p
      → (k : ℕ) → p.shct k ≤ (update hash p id req).shct k
  unfolding update saturating_increment
  update-shct_le p id req v k = ground (arith, v.counters k, v.counters (signature_of hash req))

  refill-shct_le :
      (p : Ship) (id : ℕ) (req : MemReq)
      → Bounded p
      → (k : ℕ) → p.shct k ≤ (refill hash p id req).shct k
  unfolding refill saturating_increment
  refill-shct_le p id req v k = ground (arith, v.counters k, v.counters (signature_of hash req))

  untrained :
      (n : ℕ) (p : Ship) (best k : ℕ)
      → best < n
      → AllReferenced n p
      → trained hash p best k ≡ p.shct k
  unfolding trained
  untrained n p best k l h = rw (h best l)

  -- What an event leaves of a store with every bit set.
  record Rises (n : ℕ) (p q : Ship) : Type 0 where
    bounded : Bounded q
    referenced : AllReferenced n q
    rises : (k : ℕ) → p.shct k ≤ q.shct k

  serve-Rises :
      (n : ℕ) (p : Ship) (ev : Event)
      → IsEvent ev
      → IsWithin n ev
      → Bounded p
      → AllReferenced n p
      → (q : Ship) × (serve (policy hash) p ev ≡ some q) × Rises n p q
  unfolding serve refill
  serve-Rises n p (hit id req) ok low v h = (
    update hash p id req,
    refl,
    record {
      bounded = update-Bounded hash p id req v;
      referenced = update-AllReferenced n p id req h;
      rises = update-shct_le p id req v;
    },
  )
  serve-Rises n p (miss req cs) ok low v h =
      let (best, q, e, r) = ship_rank-Evicts hash p req cs v ok in
      let w = Evicts-Bounded hash p req cs best q v r in
      (
        refill hash q best req,
        rw e,
        record {
          bounded = refill-Bounded hash q best req w;
          referenced = refill-AllReferenced n q best req (λ j l. rw (r.flags_kept j) (h j l));
          rises = λ k. omega (
            arith,
            r.counters k,
            untrained n p best k (within n best cs low r.member) h,
            refill-shct_le q best req w k,
          );
        },
      )

  rising :
      (n : ℕ) (p : Ship) (evs : List Event)
      → All IsEvent evs
      → All (IsWithin n) evs
      → Bounded p
      → AllReferenced n p
      → (q : Ship) × (run (policy hash) p evs ≡ some q)
        × AllReferenced n q
        × ((k : ℕ) → p.shct k ≤ q.shct k)
  unfolding run
  rising n p [] ok low v h = (p, refl, h, λ k. omega arith)
  rising n p (ev ∷ evs) ok low v h =
      let (q, e, r) = serve-Rises n p ev ok.0 low.0 v h in
      let (t, f, all, le) = rising n q evs ok.1 low.1 r.bounded r.referenced in
      (t, rw e f, all, λ k. omega (arith, r.rises k, le k))

  -- From the constructor for `n` lines, any sequence `before` of hits and misses with proper
  -- candidates, after which each of the lines has its re-reference bit: no further sequence of hits
  -- and misses, whose candidates are lines of the cache, lowers any counter, and each line keeps its
  -- bit.
  pub counters_only_rise :
      (n : ℕ) (before evs : List Event) (p : Ship)
      → All IsEvent before
      → run (policy hash) (init n) before ≡ some p
      → AllReferenced n p
      → All IsEvent evs
      → All (IsWithin n) evs
      → (q : Ship) × (run (policy hash) p evs ≡ some q)
        × AllReferenced n q
        × ((k : ℕ) → p.shct k ≤ q.shct k)
  counters_only_rise n before evs p ok reached h ok' low =
      let (p', e, v) = ship_run-Bounded hash n before ok in
      let same : p' ≡ p = some-injective p' p (sym e ∙ reached) in
      rising n p evs ok' low (subst Bounded same v) h
