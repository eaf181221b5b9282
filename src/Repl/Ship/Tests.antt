-- ===== src/Repl/Ship/Tests.antt =====
-- SHiP with the identity as the hash.
use csce614_group_project.Base.{ℕ, ◌≤◌, ◌≡◌, refl, some, Option, none, arith}
use csce614_group_project.Repl.Policy.{run}
use csce614_group_project.Repl.Samples.{
  request, two_lines, two_lines-IsCands, accesses, accesses-IsEvent,
}
use csce614_group_project.Repl.Ship.{Ship, init, rank, update, replaced, policy}
use csce614_group_project.Repl.Ship.Laws.{
  Bounded, Evicts, init-Bounded, ship_rank-Evicts, ship_run-Bounded,
}
use csce614_group_project.Repl.Ship.Training.{AllReferenced, counters_only_rise}

abbrev same : ℕ → ℕ
same pc = pc

ship_run_example : (q : Ship) × (run (policy same) (init 2) accesses ≡ some q) × Bounded q
ship_run_example = ship_run-Bounded same 2 accesses accesses-IsEvent

ship_rank_example :
    (best : ℕ) × (q : Ship) × (rank same (init 2) (request 64 400) two_lines ≡ some (best, q))
    × Evicts same (init 2) (request 64 400) two_lines best q
ship_rank_example =
    ship_rank-Evicts same (init 2) (request 64 400) two_lines (init-Bounded 2) two_lines-IsCands

abbrev state_of : Option Ship → Ship
state_of none = init 2
state_of (some p) = p

-- two lines, both of which the accesses fill
abbrev filled : Ship
filled = state_of (run (policy same) (init 2) accesses)

filled-AllReferenced : AllReferenced same 2 filled
unfolding run rank init update replaced
filled-AllReferenced j l = ground arith

reached : run (policy same) (init 2) accesses ≡ some filled
unfolding run rank init update replaced
reached = refl

counters_only_rise_example :
    (q : Ship) × (run (policy same) filled accesses ≡ some q)
    × AllReferenced same 2 q
    × ((k : ℕ) → filled.shct k ≤ q.shct k)
counters_only_rise_example =
    counters_only_rise same 2 accesses accesses filled accesses-IsEvent reached filled-AllReferenced
      accesses-IsEvent
      ((omega arith, (omega arith, tt)), (tt, ((omega arith, (omega arith, tt)), tt)))
