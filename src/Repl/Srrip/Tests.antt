-- ===== src/Repl/Srrip/Tests.antt =====
-- SRRIP with two lines and rpvmax 3.
use csce614_group_project.Base.{ℕ, ◌≡◌, ◌≢◌, refl, true, some, elem, arith}
use csce614_group_project.Repl.Policy.{run}
use csce614_group_project.Repl.Samples.{
  request, two_lines, two_lines-IsCands, accesses, accesses-IsEvent,
}
use csce614_group_project.Repl.Srrip.{Srrip, init, update, rank, policy}
use csce614_group_project.Repl.Srrip.Laws.{
  Bounded, Evicts, init-Bounded, srrip_rank-Evicts, srrip_run-Bounded, hit_survives,
}

abbrev store : Srrip
store = init 2 3

store-Bounded : Bounded store
store-Bounded = init-Bounded 2 3 (omega arith) (omega arith)

srrip_run_example : (q : Srrip) × (run policy (init 2 3) accesses ≡ some q) × Bounded q
srrip_run_example = srrip_run-Bounded 2 3 accesses (omega arith) (omega arith) accesses-IsEvent

srrip_rank_example :
    (best : ℕ) × (q : Srrip) × (rank store (request 64 400) two_lines ≡ some (best, q))
    × Evicts store two_lines best q
srrip_rank_example =
    srrip_rank-Evicts store (request 64 400) two_lines store-Bounded two_lines-IsCands

hit_survives_example :
    (best : ℕ) × (q : Srrip) × (rank (update store 0 (request 64 400)) (request 128 400) two_lines
      ≡ some (best, q))
    × (elem best two_lines ≡ true)
    × (best ≢ 0)
unfolding init
hit_survives_example =
    hit_survives store 0 1 (request 64 400) (request 128 400) two_lines store-Bounded
      two_lines-IsCands refl (omega arith) (omega arith)
