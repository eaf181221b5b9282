-- ===== src/Repl/Hawkeye/Tests.antt =====
-- Hawkeye with two lines in one set.
use csce614_group_project.Base.{ℕ, ◌≡◌, refl, true, some, arith, elem}
use csce614_group_project.Repl.Policy.{run}
use csce614_group_project.Repl.Samples.{
  request, two_lines, two_lines-IsCands, accesses, accesses-IsEvent,
}
use csce614_group_project.Repl.Optgen.{sampled}
use csce614_group_project.Repl.Optgen
use csce614_group_project.Repl.Hawkeye.{
  Hawkeye, init, update, rank, select, policy, train_instruction, get_set_index,
}
use csce614_group_project.Repl.Hawkeye.Victim.{Chooses, Keeps, select-Chooses}
use csce614_group_project.Repl.Hawkeye.Laws.{Bounded, init-Bounded, hawkeye_run-Bounded}
use csce614_group_project.Repl.Hawkeye.Misses.{miss_trains_up}

abbrev fresh : Hawkeye
fresh = init 2 2 64

hawkeye_run_example : (q : Hawkeye) × (run policy (init 2 2 64) accesses ≡ some q) × Bounded q
hawkeye_run_example =
    hawkeye_run-Bounded 2 2 64 accesses (omega arith) (omega arith) refl (omega arith)
      accesses-IsEvent

select_example :
    (elem (select fresh (request 64 400) two_lines).0 two_lines ≡ true)
    × Keeps fresh (select fresh (request 64 400) two_lines).1
    × Chooses fresh
        (request 64 400)
        two_lines
        (select fresh (request 64 400) two_lines).0
        (select fresh (request 64 400) two_lines).1
select_example = select-Chooses fresh (request 64 400) two_lines two_lines-IsCands.nonempty

miss_trains_up_example :
    (best : ℕ) × (q : Hawkeye) × (t : Hawkeye) × (rank fresh (request 64 400) two_lines
      ≡ some (best, q))
    × (update q best (request 64 400) ≡ some t)
    × (t.predictor ≡ train_instruction q.predictor 400 true)
unfolding get_set_index init Optgen.init sampled
miss_trains_up_example =
    miss_trains_up fresh (request 64 400) two_lines
      (init-Bounded 2 2 64 (omega arith) (omega arith) refl (omega arith))
      two_lines-IsCands.nonempty refl
