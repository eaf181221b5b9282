-- ===== src/Barrier/Join.antt =====
-- zsim/src/barrier.h: `join`, and where it puts a thread on the run list.
use csce614_group_project.Base.{
  count-pos, ℕ, suc, ◌<◌, ◌≤◌, ◌≡◌, ◌⊎◌, inl, inr, refl, Bool-cases, true, Option, some, ◌==◌, ltb,
  ltb→lt, write, add32, sub32, arith,
}
use csce614_group_project.Barrier.{Barrier, offline, waiting, left, is_left, swap, enlist}
use csce614_group_project.Barrier.Listed.{append-IsListed, move-IsListed, swap-IsListed}
use csce614_group_project.Barrier.Counted.{max_threads, IsCounted, set-IsCounted}
use csce614_group_project.Barrier.Invariant.{IsSound, size-le, counts-le}

module _ {R W : Type 0} where
  -- the thread waits, and can be woken
  abbrev pub ready_to_run : Barrier R W → ℕ → Barrier R W
  ready_to_run b tid = record b {
    state = write b.state tid waiting;
    futex_word = write b.futex_word tid 1;
  }

  -- On the list, at a position that the loop has still to reach in this phase.
  pub record Enlists (b b' : Barrier R W) (tid : ℕ) : Type 0 where
    pub sound : IsSound (ready_to_run b' tid)
    pub limit_same : b'.parallel_threads ≡ b.parallel_threads
    pub sched_same : b'.sched ≡ b.sched
    pub others : (t : ℕ) → b'.state t ≡ b.state t
    pub idx : ℕ
    pub ahead : b'.cur_thread_idx ≤ idx
    pub on_list : idx < b'.run_list_size
    pub found : b'.run_list idx ≡ tid

  abbrev pub Promise : Barrier R W → ℕ → Option (Barrier R W) → Type 0
  Promise b tid run = (b' : Barrier R W) × (run ≡ some b') × Enlists b b' tid

  module _ (b : Barrier R W) (tid : ℕ) where
    abbrev appended : Barrier R W
    appended = record b {
      run_list = write b.run_list b.run_list_size tid;
      run_list_size = add32 b.run_list_size 1;
    }

    append-Enlists : IsSound b → b.state tid ≡ offline → tid < max_threads → Enlists b appended tid
    append-Enlists h off low =
        let room : add32 b.run_list_size 1 ≡ suc b.run_list_size = omega (arith, size-le h) in
        record {
          sound = record {
            listed = rw room (append-IsListed h.listed tid (rw off refl));
            counted =
                set-IsCounted tid waiting (add32 b.run_list_size 1) b.running_threads b.left_threads
                  h.counted low (rw off (omega (arith, size-le h))) (rw off refl) (rw off refl);
            in_list = omega (arith, h.in_list, size-le h);
            limited = h.limited;
            ready = λ t ht. ground (arith, h.ready t);
            passed = λ t ht. ground (arith, h.passed t);
          };
          limit_same = refl;
          sched_same = refl;
          others = λ t. refl;
          idx = b.run_list_size;
          ahead = h.in_list;
          on_list = omega (arith, size-le h);
          found = ground arith;
        }

    abbrev fewer_left : Barrier R W
    fewer_left = record b { left_threads = sub32 b.left_threads 1 }

    one_left : IsSound b → b.state tid ≡ left → (0 < b.left_threads) × (tid < max_threads)
    one_left h e =
        let low = h.counted.below tid (rw e refl) in
        (
          omega (
            arith,
            h.counted.left_count,
            count-pos is_left max_threads b.state tid low (rw e refl),
          ),
          low,
        )

    back-IsCounted :
        IsSound b
        → b.state tid ≡ left
        → IsCounted
            (write b.state tid waiting)
            b.run_list_size
            b.running_threads
            (sub32 b.left_threads 1)
    back-IsCounted h e =
        let (pos, low) = one_left h e in
        set-IsCounted tid waiting b.run_list_size b.running_threads (sub32 b.left_threads 1)
          h.counted low (rw e refl) (rw e refl) (rw e (omega (arith, size-le h, counts-le h)))

    back-Enlists :
        IsSound b
        → b.state tid ≡ left
        → b.cur_thread_idx ≤ b.last_idx tid
        → Enlists b fewer_left tid
    back-Enlists h e late =
        let (here, at) = h.listed.known tid (rw e refl) in
        record {
          sound = record {
            listed = move-IsListed h.listed tid waiting (rw e refl) refl (λ p. cc);
            counted = back-IsCounted h e;
            in_list = h.in_list;
            limited = h.limited;
            ready = λ t ht. ground (arith, h.ready t);
            passed = λ t ht. ground (arith, h.passed t);
          };
          limit_same = refl;
          sched_same = refl;
          others = λ t. refl;
          idx = b.last_idx tid;
          ahead = late;
          on_list = here;
          found = at;
        }

    abbrev again : ℕ → Barrier R W
    again i = swap (record fewer_left { cur_thread_idx = i }) i (b.last_idx tid)

    again-Enlists :
        IsSound b
        → b.state tid ≡ left
        → (i : ℕ) → suc i ≡ b.cur_thread_idx
        → b.last_idx tid < b.cur_thread_idx
        → Enlists b (again i) tid
    unfolding swap
    again-Enlists h e i top early =
        let (here, at) = h.listed.known tid (rw e refl) in
        let low : i < b.run_list_size = omega (arith, h.in_list) in
        record {
          sound = record {
            listed =
                move-IsListed (swap-IsListed h.listed i (b.last_idx tid) low here) tid waiting
                  (rw e refl) refl (λ p. cc);
            counted = back-IsCounted h e;
            in_list = omega (arith, h.in_list);
            limited = h.limited;
            ready = λ t ht. ground (arith, h.ready t);
            passed = λ t ht. ground (arith, h.passed t, e, at, h.listed.known t);
          };
          limit_same = refl;
          sched_same = refl;
          others = λ t. refl;
          idx = i;
          ahead = omega arith;
          on_list = low;
          found = ground (arith, at);
        }

    module _ (rand_int : R → ℕ → ℕ × R) (callback : W → W) where
      -- A thread that may join is put on the list, and no assertion fails.
      pub enlist_ends :
          IsSound b
          → (b.state tid ≡ left) ⊎ ((b.state tid ≡ offline) × (tid < max_threads))
          → Promise b tid (enlist rand_int callback b tid (b.state tid))
      unfolding enlist
      enlist_ends h (inr (e, low)) = rw e (appended, refl, append-Enlists h e low)
      enlist_ends h (inl e) =
          let (here, at) = h.listed.known tid (rw e refl) in
          let mine : (tid == b.run_list (b.last_idx tid)) ≡ true = ground (arith, at) in
          elim (Bool-cases (ltb (b.last_idx tid) b.cur_thread_idx)) [
            | inr p ↦ rw (e, p) (fewer_left, refl, back-Enlists h e (ground arith))
            | inl p ↦
                rw (e, p, mine)
                  (
                    _,
                    refl,
                    again-Enlists h e (sub32 b.cur_thread_idx 1)
                        (omega (arith, ltb→lt _ _ p, h.in_list, size-le h)) (ltb→lt _ _ p),
                  )
          ]
