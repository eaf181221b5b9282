-- ===== src/Repl/Hawkeye/Misses.antt =====
-- Training on a miss. `rank` has OPTgen account for the access, and `postinsert` calls `update`,
-- written for hits, which has OPTgen account for it once more.
use mathlib.Core.Path.{ap₂}
use csce614_group_project.Base.{
  ℕ, ◌+◌, ◌/◌, ◌≡◌, ◌≢◌, Bool, true, arith, List, [], Option, some, ap, ◌∙◌,
}
use csce614_group_project.Hierarchy.{MemReq}
use csce614_group_project.Repl.Optgen.{Optgen, sampled, cache_access}
use csce614_group_project.Repl.Optgen.Again.{cache_access_again}
use csce614_group_project.Repl.Hawkeye.{
  Hawkeye, observe, set_line, update, rank, select, get_set_index, train_instruction,
}
use csce614_group_project.Repl.Hawkeye.Victim.{Keeps, select-Chooses}
use csce614_group_project.Repl.Hawkeye.Laws.{Bounded}

abbrev set_of : Hawkeye → MemReq → ℕ
set_of p req = get_set_index p req.line_addr

set_line-predictor :
    (p : Hawkeye) (id : ℕ) (req : MemReq) → (set_line p id req).predictor ≡ p.predictor
unfolding set_line
set_line-predictor p id req = ground arith

abbrev line_of : Hawkeye → MemReq → ℕ
line_of p req = req.line_addr / p.block_size

abbrev access_of : Hawkeye → MemReq → Option (Bool × Optgen)
access_of p req = cache_access (p.opt_gen.vector_size + 1) p.opt_gen (line_of p req) (set_of p req)

-- `observe` of a sampled set, by the outcome of OPTgen.
observe_on :
    (p : Hawkeye) (req : MemReq) (hit : Bool) (g : Optgen)
    → p.opt_gen.is_sampled (set_of p req) ≡ true
    → access_of p req ≡ some (hit, g)
    → observe p req
      ≡ some (record p { opt_gen = g; predictor = train_instruction p.predictor req.pc hit })
unfolding observe sampled
observe_on p req hit g on run = rw (on, run)

set_of-Keeps : (p q : Hawkeye) (req : MemReq) → Keeps p q → set_of q req ≡ set_of p req
unfolding get_set_index
set_of-Keeps p q req k = rw (k.block_size, k.set_span)

-- A policy with the same geometry as `p` and with OPTgen `g` makes the access that `g` would.
access_of-Keeps : (p q : Hawkeye) (req : MemReq) → Keeps p q → access_of q req ≡ access_of p req
access_of-Keeps p q req k =
    ap₂ (λ line set. cache_access (q.opt_gen.vector_size + 1) q.opt_gen line set)
      (ap (λ b. req.line_addr / b) k.block_size) (set_of-Keeps p q req k)
    ∙ ap (λ g. cache_access (g.vector_size + 1) g (line_of p req) (set_of p req)) k.opt_gen

-- With the arrays in range, slots whose number divides 2^32, and at least one candidate, a miss on a
-- sampled set trains its program counter up, whatever OPTgen decided when the victim was chosen: the
-- access that `update` makes after `rank` is always a hit for OPTgen.
pub miss_trains_up :
    (p : Hawkeye) (req : MemReq) (cs : List ℕ)
    → Bounded p
    → cs ≢ []
    → sampled p.opt_gen (get_set_index p req.line_addr) ≡ true
    → (best : ℕ) × (q : Hawkeye) × (t : Hawkeye) × (rank p req cs ≡ some (best, q))
      × (update q best req ≡ some t)
      × (t.predictor ≡ train_instruction q.predictor req.pc true)
unfolding rank update sampled get_set_index
miss_trains_up p req cs v some_cand on =
    let (hit, g2, g3, first, second, on2, same) =
      cache_access_again (p.opt_gen.vector_size + 1) p.opt_gen (line_of p req) (set_of p req)
        v.optgen on (omega arith) in
    let o = record p { opt_gen = g2; predictor = train_instruction p.predictor req.pc hit } in
    let (mem, keeps, ch) = select-Chooses o req cs some_cand in
    let r = select o req cs in
    let q_on : r.1.opt_gen.is_sampled (set_of r.1 req) ≡ true =
      ap₂ (λ g set. g.is_sampled set) keeps.opt_gen (set_of-Keeps o r.1 req keeps) ∙ on2 in
    let o_run : access_of o req ≡ some (true, g3) =
      ap (λ n. cache_access (n + 1) g2 (line_of p req) (set_of p req)) same ∙ second in
    let q_run = access_of-Keeps o r.1 req keeps ∙ o_run in
    (
      r.0,
      r.1,
      set_line
          (record r.1 { opt_gen = g3; predictor = train_instruction r.1.predictor req.pc true }) r.0
          req,
      rw (observe_on p req hit g2 on first),
      rw (observe_on r.1 req true g3 q_on q_run),
      set_line-predictor
          (record r.1 { opt_gen = g3; predictor = train_instruction r.1.predictor req.pc true }) r.0
          req,
    )
