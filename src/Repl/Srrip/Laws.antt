-- ===== src/Repl/Srrip/Laws.antt =====
-- zsim/src/rrip_repl.h: the invariant of SRRIP, and its victim.
use csce614_group_project.Base.{
  ℕ, suc, ◌+◌, ◌-◌, ◌≤◌, ◌<◌, ◌≡◌, ◌≢◌, refl, true, some, List, [], ◌∷◌, Array, All, elem, arith,
  u32_mod, Bool-cases, ◌==◌, if◌then◌else◌, inl, inr,
}
use csce614_group_project.Hierarchy.{MemReq}
use csce614_group_project.Repl.Aging.Laws.{Found, search-Found, peak-le, le-peak}
use csce614_group_project.Repl.Policy.{Laws, IsCands, insert, Event, IsEvent, run, run_total}
use csce614_group_project.Repl.Srrip.{Srrip, init, update, refill, rank, value, grow_older, policy}

-- No line's value exceeds `rpvmax`, which is between 1 and the largest that leaves room to age.
pub record Bounded (p : Srrip) : Type 0 where
  pub some_room : 1 ≤ p.rpvmax
  pub fits : p.rpvmax + 1 < u32_mod
  pub lines : (id : ℕ) → p.array id ≤ p.rpvmax

pub init-Bounded : (n rpvmax : ℕ) → 1 ≤ rpvmax → rpvmax + 1 < u32_mod → Bounded (init n rpvmax)
unfolding init
init-Bounded n rpvmax h k = record { some_room = h; fits = k; lines = λ id. ground arith }

pub update-Bounded : (p : Srrip) (id : ℕ) (req : MemReq) → Bounded p → Bounded (update p id req)
unfolding update
update-Bounded p id req v = record {
  some_room = ground arith;
  fits = ground arith;
  lines = λ j. ground (arith, v.lines j, v.lines id);
}

pub refill-Bounded : (p : Srrip) (id : ℕ) (req : MemReq) → Bounded p → Bounded (refill p id req)
unfolding refill
refill-Bounded p id req v = record {
  some_room = ground arith;
  fits = ground arith;
  lines = λ j. ground (arith, v.lines j);
}

ageing :
    (p : Srrip) → Bounded p → (l : ℕ) → value l < p.rpvmax → value (grow_older l) ≡ suc (value l)
ageing p v l h = omega (arith, v.fits)

-- What a call of `rank` on the candidates `cs` returns and leaves behind.
pub record Evicts (p : Srrip) (cs : List ℕ) (best : ℕ) (q : Srrip) : Type 0 where
  pub same_max : q.rpvmax ≡ p.rpvmax
  pub found : Found value p.rpvmax p.array cs best q.array

All-bound :
    (a : Array ℕ) (top : ℕ) (cs : List ℕ)
    → ((id : ℕ) → a id ≤ top)
    → All (λ c. value (a c) ≤ top) cs
All-bound a top [] h = tt
All-bound a top (c ∷ cs) h = (h c, All-bound a top cs h)

-- With values of at most rpvmax and proper candidates, `rank` ends within rpvmax + 1 rounds. The
-- victim is the first candidate of the greatest value, every candidate is aged by what that value
-- lacked of rpvmax, and no other line changes.
pub srrip_rank-Evicts :
    (p : Srrip) (req : MemReq) (cs : List ℕ)
    → Bounded p
    → IsCands cs
    → (best : ℕ) × (q : Srrip) × (rank p req cs ≡ some (best, q)) × Evicts p cs best q
unfolding rank
srrip_rank-Evicts p req cs v ok =
    let le = peak-le value p.rpvmax p.array cs (All-bound p.array p.rpvmax cs v.lines) in
    let (best, b, e, f) =
      search-Found value grow_older p.rpvmax (ageing p v) cs ok.nonempty ok.distinct ok.ids
        (p.rpvmax + 1) p.array le (omega arith) in
    (best, record p { array = b }, rw e, record { same_max = refl; found = f })

pub Evicts-Bounded :
    (p q : Srrip) (cs : List ℕ) (best : ℕ) → Bounded p → Evicts p cs best q → Bounded q
Evicts-Bounded p q cs best v r = record {
  some_room = rw r.same_max v.some_room;
  fits = rw r.same_max v.fits;
  lines = λ j. elim (Bool-cases (elem j cs)) [
    | inl h ↦ omega (
      arith,
      r.found.aged j h,
      le-peak value p.array cs j h,
      peak-le value p.rpvmax p.array cs (All-bound p.array p.rpvmax cs v.lines),
      r.same_max,
    )
    | inr h ↦ rw (r.found.kept j h, r.same_max) (v.lines j)
  ];
}

unfoldable pub laws : Laws policy
unfolding insert refill
laws = record {
  Inv = Bounded;
  update_total = λ p id req v. (update p id req, refl, update-Bounded p id req v);
  insert_total = λ p id req v. (refill p id req, refl, refill-Bounded p id req v);
  rank_total = λ p req cs v ok.
      let (best, q, e, r) = srrip_rank-Evicts p req cs v ok in
      (best, q, e, r.found.member, Evicts-Bounded p q cs best v r);
}

-- From the constructor on, any sequence of hits and misses with proper candidates is served to
-- the end: no victim search runs out of its rpvmax + 1 rounds. No line's value exceeds rpvmax then.
pub srrip_run-Bounded :
    (n rpvmax : ℕ) (evs : List Event)
    → 1 ≤ rpvmax
    → rpvmax + 1 < u32_mod
    → All IsEvent evs
    → (q : Srrip) × (run policy (init n rpvmax) evs ≡ some q) × Bounded q
unfolding laws
srrip_run-Bounded n rpvmax evs h k ok =
    run_total policy laws (init n rpvmax) evs ok (init-Bounded n rpvmax h k)

-- With values of at most rpvmax and proper candidates, `rank` right after a hit on a line ends, and
-- the line is not the victim while another candidate has a value above 0.
pub hit_survives :
    (p : Srrip) (id other : ℕ) (req next : MemReq) (cs : List ℕ)
    → Bounded p
    → IsCands cs
    → elem other cs ≡ true
    → other ≢ id
    → 0 < p.array other
    → (best : ℕ) × (q : Srrip) × (rank (update p id req) next cs ≡ some (best, q))
      × (elem best cs ≡ true)
      × (best ≢ id)
unfolding update
hit_survives p id other req next cs v ok mem ne pos =
    let (best, q, e, r) =
      srrip_rank-Evicts (update p id req) next cs (update-Bounded p id req v) ok in
    let high = le-peak value (update p id req).array cs other mem in
    let top = r.found.greatest in
    (best, q, e, r.found.member, λ (same : best ≡ id). ground (arith, v.lines id, high, top))

-- With values of at most rpvmax, a line brought in by a miss starts at rpvmax - 1, and a line that is
-- hit goes to 0; the other lines keep their values.
pub refill-then_hit :
    (p : Srrip) (id : ℕ) (req : MemReq)
    → Bounded p
    → (j : ℕ)
    → ((refill p id req).array j ≡ (if j == id then p.rpvmax - 1 else p.array j))
      × ((update p id req).array j ≡ (if j == id then 0 else p.array j))
unfolding refill
refill-then_hit p id req v j = (ground arith, ground (arith, v.lines id))
