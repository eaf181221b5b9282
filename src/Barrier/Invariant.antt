-- ===== src/Barrier/Invariant.antt =====
-- zsim/src/barrier.h: what holds of a barrier whenever the scheduler's lock is free.
use csce614_group_project.Base.{
  count-le, count-zero, ℕ, ◌+◌, ◌≤◌, ◌<◌, ◌≡◌, refl, true, Array, arith,
}
use csce614_group_project.Barrier.{Barrier, State, is_waiting, is_running, is_left, init}
use csce614_group_project.Barrier.Listed.{IsListed}
use csce614_group_project.Barrier.Counted.{max_threads, IsCounted, count_on, is_on}

-- The list and the counters agree with the states, at most `parallel_threads` threads run, the
-- ones that run were woken in this phase, and a waiting thread's futex word is ready for the wakeup.
pub record IsSound {R W : Type 0} (b : Barrier R W) : Type 0 where
  pub listed : IsListed b.run_list b.run_list_size b.state b.last_idx
  pub counted : IsCounted b.state b.run_list_size b.running_threads b.left_threads
  pub in_list : b.cur_thread_idx ≤ b.run_list_size
  pub limited : b.running_threads ≤ b.parallel_threads
  pub ready : (t : ℕ) → is_waiting (b.state t) ≡ true → b.futex_word t ≡ 1
  pub passed : (t : ℕ) → is_running (b.state t) ≡ true → b.last_idx t < b.cur_thread_idx

module _ {R W : Type 0} where
  pub size-le : {b : Barrier R W} → IsSound b → b.run_list_size ≤ max_threads
  size-le {b} h = omega (arith, h.counted.on_list, count-le is_on max_threads b.state)

  pub counts-le :
      {b : Barrier R W} → IsSound b → b.running_threads + b.left_threads ≤ b.run_list_size
  counts-le {b} h = omega (
    arith,
    h.counted.on_list,
    h.counted.running_count,
    h.counted.left_count,
    count_on max_threads b.state,
  )

  pub init-IsSound :
      (parallel_threads : ℕ) (last_idx : Array ℕ) (rnd : R) (sched : W)
      → IsSound (init parallel_threads last_idx rnd sched)
  unfolding init
  init-IsSound parallel_threads last_idx rnd sched = record {
    listed = record {
      member = λ i hi. absurd (omega arith);
      once = λ i j hi hj e. absurd (omega arith);
      place = λ t ht. cc;
      known = λ t ht. cc;
    };
    counted = record {
      below = λ t ht. cc;
      on_list = omega (arith, count-zero is_on max_threads (λ t. State.offline) (λ t ht. refl));
      running_count =
          omega (arith, count-zero is_running max_threads (λ t. State.offline) (λ t ht. refl));
      left_count =
          omega (arith, count-zero is_left max_threads (λ t. State.offline) (λ t ht. refl));
    };
    in_list = omega arith;
    limited = omega arith;
    ready = λ t ht. cc;
    passed = λ t ht. cc;
  }
