-- ===== src/Barrier/Tests.antt =====
-- Two threads of which one runs at a time.
use csce614_group_project.Base.{ℕ, suc, ◌≤◌, ◌<◌, ◌≡◌, refl, inr, Option, none, some, Array, arith}
use csce614_group_project.Barrier.{
  Barrier, waiting, running, left, init, join, leave, sync, swap, enlist, wake, wake_next,
  wake_loop, check_run_list, clean_next, clean_loop, cleanup, shuffle, count_phase, mix, end_phase,
  check_end_phase, try_wake_next, leave_from,
}
use csce614_group_project.Barrier.Invariant.{IsSound}
use csce614_group_project.Barrier.Wake.{Ends, check_run_list-Ends}
use csce614_group_project.Barrier.Steps.{joins, syncs, perform, calls, Reach, start, later}
use csce614_group_project.Barrier.Runs.{
  reach-IsSound, no_deadlock, calls_succeed, join_keeps_phase, Returns,
}

abbrev first_of : ℕ → ℕ → ℕ × ℕ
first_of seed n = (0, suc seed)

bounded : (r n : ℕ) → (first_of r n).0 ≤ n
bounded r n = omega arith

abbrev unset : Array ℕ
unset t = 0

abbrev empty : Barrier ℕ ℕ
empty = init 1 unset 7 0

abbrev after : Option (Barrier ℕ ℕ) → Barrier ℕ ℕ
after (some b) = b
after none = empty

abbrev one : Barrier ℕ ℕ
one = after (perform first_of suc empty (joins 3))

abbrev two : Barrier ℕ ℕ
two = after (perform first_of suc one (joins 5))

abbrev Runs : Barrier ℕ ℕ → Type 0
Runs = Reach first_of suc 1 unset 7 0

Runs-one : Runs one
unfolding init join enlist try_wake_next check_run_list wake_loop wake_next wake check_end_phase
Runs-one = later start (calls (joins 3) (inr (refl, omega arith)) refl)

Runs-two : Runs two
unfolding init join enlist try_wake_next check_run_list wake_loop wake_next wake check_end_phase
Runs-two = later Runs-one (calls (joins 5) (inr (refl, omega arith)) refl)

-- both synchronise in turn, and the phase ends
abbrev turned : Barrier ℕ ℕ
turned = after (perform first_of suc two (syncs 3))

abbrev ended : Barrier ℕ ℕ
ended = after (perform first_of suc turned (syncs 5))

one_phase :
    (turned.sched ≡ 0)
    × (turned.state 5 ≡ running)
    × (ended.sched ≡ 1)
    × (ended.state 5 ≡ running)
    × (ended.state 3 ≡ waiting)
unfolding init join sync enlist try_wake_next check_run_list wake_loop wake_next wake
    check_end_phase end_phase count_phase cleanup clean_loop clean_next mix shuffle swap
one_phase = (refl, refl, refl, refl, refl)

reach-IsSound_example : IsSound two × (two.running_threads ≤ 1)
reach-IsSound_example = reach-IsSound first_of bounded suc 1 unset 7 0 (omega arith) Runs-two

no_deadlock_example : 0 < two.running_threads
unfolding init join enlist try_wake_next check_run_list wake_loop wake_next wake check_end_phase
no_deadlock_example = no_deadlock first_of bounded suc 1 unset 7 0 (omega arith) Runs-two 5 refl

calls_succeed_example :
    Returns first_of bounded suc 1 unset 7 0 (omega arith) (perform first_of suc two (syncs 3))
unfolding init join enlist try_wake_next check_run_list wake_loop wake_next wake check_end_phase
calls_succeed_example =
    calls_succeed first_of bounded suc 1 unset 7 0 (omega arith) Runs-two (syncs 3) refl

join_keeps_phase_example :
    (b' : Barrier ℕ ℕ) × (join first_of suc one 5 ≡ some b')
    × (b'.sched ≡ one.sched)
    × (0 < b'.running_threads)
unfolding init join enlist try_wake_next check_run_list wake_loop wake_next wake check_end_phase
join_keeps_phase_example =
    join_keeps_phase first_of bounded suc 1 unset 7 0 (omega arith) Runs-one 5
      (inr (refl, omega arith))

check_run_list_example : Ends two (check_run_list two)
check_run_list_example = check_run_list-Ends reach-IsSound_example.0

-- A thread that leaves before it was ever woken, and joins again in the phase, fails the assertion on
-- the list: its `last_idx` is not its position yet.
abbrev early : Barrier ℕ ℕ
early = after (leave first_of suc two 5)

rejoin_aborts : (early.state 5 ≡ left) × (join first_of suc early 5 ≡ none)
unfolding init join leave leave_from enlist try_wake_next check_run_list wake_loop wake_next wake
    check_end_phase swap
rejoin_aborts = (refl, refl)
