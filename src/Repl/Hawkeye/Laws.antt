-- ===== src/Repl/Hawkeye/Laws.antt =====
-- zsim/src/hawkeye_repl.h: the invariant of Hawkeye, and its runs.
use native.Mathlib.Nat.{div-add-mod'}
use csce614_group_project.Base.{
  ℕ, ◌+◌, ◌*◌, ◌%◌, ◌/◌, ◌≤◌, ◌<◌, ◌≡◌, ◌≢◌, refl, true, false, arith, List, [], some, All, elem,
  Bool-cases, inl, inr, u32_mod, mul32,
}
use csce614_group_project.Hierarchy.{MemReq}
use csce614_group_project.Repl.Policy.{Laws, insert, Event, IsEvent, run, run_total}
use csce614_group_project.Repl.Optgen.{Optgen, sampled, cache_access}
use csce614_group_project.Repl.Optgen
use csce614_group_project.Repl.Optgen.Capacity.{cache_access-IsValid}
use csce614_group_project.Repl.Optgen.Laws.{IsValid}
use csce614_group_project.Repl.Hawkeye.{
  Hawkeye, init, observe, set_line, update, replaced, rank, select, get_set_index,
  train_instruction, predict_instruction, policy,
}
use csce614_group_project.Repl.Hawkeye.Predictor.{Saturates, train-Saturates}
use csce614_group_project.Repl.Hawkeye.Victim.{
  Lines, aged_array-Lines, Chooses, averse, friendly, select-Chooses,
}

-- Values and counters stay in 0 to 7, and the arrays of OPTgen are valid.
pub record Bounded (p : Hawkeye) : Type 0 where
  pub lines : Lines p.array
  pub counters : Saturates p.predictor
  pub optgen : IsValid p.opt_gen

-- What the training leaves of the policy.
pub record Observes (p q : Hawkeye) : Type 0 where
  pub bounded : Bounded q
  pub same_lines : q.array ≡ p.array
  pub same_pcs : q.array_pcs ≡ p.array_pcs
  pub same_geometry : (q.block_size ≡ p.block_size) × (q.set_span ≡ p.set_span)

pub observe_total :
    (p : Hawkeye) (req : MemReq)
    → Bounded p
    → (q : Hawkeye) × (observe p req ≡ some q) × Observes p q
unfolding observe sampled
observe_total p req v = elim (Bool-cases (p.opt_gen.is_sampled (get_set_index p req.line_addr))) [
  | inr off ↦ (
    p,
    rw off,
    record { bounded = v; same_lines = refl; same_pcs = refl; same_geometry = (refl, refl) },
  )
  | inl on ↦
      let (opt_hit, g, run, w) =
        cache_access-IsValid (p.opt_gen.vector_size + 1) p.opt_gen (req.line_addr / p.block_size)
          (get_set_index p req.line_addr) v.optgen on (omega arith) in
      (
        record p { opt_gen = g; predictor = train_instruction p.predictor req.pc opt_hit },
        rw (on, run),
        record {
          bounded = record {
            lines = v.lines;
            counters = train-Saturates p.predictor req.pc opt_hit v.counters;
            optgen = w;
          };
          same_lines = refl;
          same_pcs = refl;
          same_geometry = (refl, refl);
        },
      )
]

set_line-Bounded : (p : Hawkeye) (id : ℕ) (req : MemReq) → Bounded p → Bounded (set_line p id req)
unfolding set_line
set_line-Bounded p id req v = record {
  lines = λ j. ground (arith, v.lines j);
  counters = λ k. ground (arith, v.counters k);
  optgen = elim (Bool-cases (predict_instruction p.predictor req.pc)) [
    | inl e ↦ rw e v.optgen
    | inr e ↦ rw e v.optgen
  ];
}

pub update_total :
    (p : Hawkeye) (id : ℕ) (req : MemReq)
    → Bounded p
    → (q : Hawkeye) × (update p id req ≡ some q) × Bounded q
unfolding update
update_total p id req v =
    let (q, run, o) = observe_total p req v in
    (set_line q id req, rw run, set_line-Bounded q id req o.bounded)

Chooses-lines :
    (p : Hawkeye) (req : MemReq) (cs : List ℕ) (best : ℕ) (q : Hawkeye)
    → Bounded p
    → Chooses p req cs best q
    → Lines q.array
Chooses-lines p req cs best q v (averse _ _ e) = rw e (aged_array-Lines p req cs v.lines)
Chooses-lines p req cs best q v (friendly _ _ _ e) =
    rw e (λ j. ground (arith, aged_array-Lines p req cs v.lines j))

Chooses-counters :
    (p : Hawkeye) (req : MemReq) (cs : List ℕ) (best : ℕ) (q : Hawkeye)
    → Bounded p
    → Chooses p req cs best q
    → Saturates q.predictor
Chooses-counters p req cs best q v (averse _ e _) = rw e v.counters
Chooses-counters p req cs best q v (friendly _ _ e _) = rw e (λ k.
    ground (arith, train-Saturates p.predictor (p.array_pcs best) false v.counters k, v.counters k))

pub rank_total :
    (p : Hawkeye) (req : MemReq) (cs : List ℕ)
    → Bounded p
    → cs ≢ []
    → (best : ℕ) × (q : Hawkeye) × (rank p req cs ≡ some (best, q))
      × (elem best cs ≡ true)
      × Bounded q
unfolding rank
rank_total p req cs v some_cand =
    let (t, run, o) = observe_total p req v in
    let (mem, same, ch) = select-Chooses t req cs some_cand in
    let r = select t req cs in
    (
      r.0,
      r.1,
      rw run,
      mem,
      record {
        lines = Chooses-lines t req cs r.0 r.1 o.bounded ch;
        counters = Chooses-counters t req cs r.0 r.1 o.bounded ch;
        optgen = rw same.opt_gen o.bounded.optgen;
      },
    )

pub laws : Laws policy
unfolding insert replaced
laws = record {
  Inv = Bounded;
  update_total = update_total;
  insert_total = update_total;
  rank_total = λ p req cs v ok. rank_total p req cs v ok.nonempty;
}

run-Bounded :
    (p : Hawkeye) (evs : List Event)
    → Bounded p
    → All IsEvent evs
    → (q : Hawkeye) × (run policy p evs ≡ some q) × Bounded q
unfolding laws
run-Bounded p evs v ok = run_total policy laws p evs ok v

no_wrap : (ways : ℕ) → ways * 8 ≤ 2147483648 → mul32 ways 8 ≡ ways * 8
no_wrap ways h = omega arith

rows_fit : (lines ways set : ℕ) → set < lines / ways → set * (ways * 8) + ways * 8 ≤ lines * 8
rows_fit lines ways set h =
    let below : lines / ways * ways ≤ lines = omega (arith, div-add-mod' lines ways) in
    let step : (set + 1) * ways ≤ lines / ways * ways = grind arith in omega arith

-- The constructor's arrays are in range where 8 slots for each way divide 2^32 and the slots of
-- all sets fit 32 bits.
pub init-Bounded :
    (num_lines num_ways line_size : ℕ)
    → 1 ≤ num_ways
    → num_ways * 8 ≤ 2147483648
    → u32_mod % (num_ways * 8) ≡ 0
    → num_lines * 8 ≤ u32_mod
    → Bounded (init num_lines num_ways line_size)
unfolding init Optgen.init
init-Bounded num_lines num_ways line_size h k d fit = record {
  lines = λ id. ground arith;
  counters = λ k. omega arith;
  optgen = record {
    ring = record {
      positive = omega arith;
      small = omega arith;
      divides = rw (no_wrap num_ways k) d;
    };
    wide = omega arith;
    ways = h;
    rows = λ set on.
        rw (no_wrap num_ways k) (omega (arith, rows_fit num_lines num_ways set (ground arith)));
    capacity = λ k. omega arith;
    ways_fit = omega arith;
  };
}

-- From the constructor on, where 8 slots for each way divide 2^32 and the slots of all sets fit 32
-- bits, any sequence of hits and misses with proper candidates is served to the end, with every
-- loop of OPTgen within vector_size + 1 rounds. Then values and counters are at most 7, and no slot
-- of OPTgen holds more lines than there are ways.
pub hawkeye_run-Bounded :
    (num_lines num_ways line_size : ℕ) (evs : List Event)
    → 1 ≤ num_ways
    → num_ways * 8 ≤ 2147483648
    → u32_mod % (num_ways * 8) ≡ 0
    → num_lines * 8 ≤ u32_mod
    → All IsEvent evs
    → (q : Hawkeye) × (run policy (init num_lines num_ways line_size) evs ≡ some q) × Bounded q
hawkeye_run-Bounded num_lines num_ways line_size evs h k d fit ok =
    run-Bounded (init num_lines num_ways line_size) evs
      (init-Bounded num_lines num_ways line_size h k d fit) ok
