-- ===== src/Barrier/Steps.antt =====
-- zsim/src/barrier.h: the runs of the barrier, an operation at a time under the scheduler's lock.
use csce614_group_project.Base.{
  count-pos, ℕ, ◌<◌, ◌≤◌, ◌≡◌, ◌⊎◌, inl, inr, refl, ◌∙◌, Option, some, Array, write, add32, sub32,
  arith,
}
use csce614_group_project.Barrier.{
  Barrier, offline, waiting, running, left, is_running, init, join, leave, leave_from, sync,
  try_wake_next,
}
use csce614_group_project.Barrier.Listed.{move-IsListed}
use csce614_group_project.Barrier.Counted.{max_threads, set-IsCounted}
use csce614_group_project.Barrier.Invariant.{IsSound, size-le, counts-le}
use csce614_group_project.Barrier.Progress.{IsLive, try_wake_next-Proceeds}
use csce614_group_project.Barrier.Join.{enlist_ends}

-- a call, with the thread that makes it
pub data Call : Type 0 where
  joins leaves syncs : (tid : ℕ) → Call

module _ {R W : Type 0} where
  -- a thread that is not on the list yet, or has left
  abbrev pub MayJoin : Barrier R W → ℕ → Type 0
  MayJoin b tid = (b.state tid ≡ left) ⊎ ((b.state tid ≡ offline) × (tid < max_threads))

  -- a thread that runs, or that waits after it has run: its position is the one in `last_idx`
  abbrev pub MayLeave : Barrier R W → ℕ → Type 0
  MayLeave b tid =
      (b.state tid ≡ running)
      ⊎ ((b.state tid ≡ waiting)
          × (b.last_idx tid < b.run_list_size)
          × (b.run_list (b.last_idx tid) ≡ tid))

  -- the calls that a thread may make
  abbrev pub May : Barrier R W → Call → Type 0
  May b (joins tid) = MayJoin b tid
  May b (leaves tid) = MayLeave b tid
  May b (syncs tid) = b.state tid ≡ running

  module _ (rand_int : R → ℕ → ℕ × R) (callback : W → W) where
    abbrev pub perform : Barrier R W → Call → Option (Barrier R W)
    perform b (joins tid) = join rand_int callback b tid
    perform b (leaves tid) = leave rand_int callback b tid
    perform b (syncs tid) = sync rand_int callback b tid

    pub data Step (b b' : Barrier R W) : Type 0 where
      calls : (c : Call) → May b c → perform b c ≡ some b' → Step b b'

    pub data Reach (parallel_threads : ℕ) (last_idx : Array ℕ) (rnd : R) (sched : W)
        : Barrier R W → Type 0 where
      start : Reach parallel_threads last_idx rnd sched (init parallel_threads last_idx rnd sched)
      later :
          {b b' : Barrier R W}
          → Reach parallel_threads last_idx rnd sched b
          → Step b b'
          → Reach parallel_threads last_idx rnd sched b'

    module _ (bounded : (r : R) (n : ℕ) → (rand_int r n).0 ≤ n) where
      -- The state that an operation leaves, with the promise that it does.
      pub record Good (b : Barrier R W) : Type 0 where
        pub sound : IsSound b
        pub live : IsLive rand_int bounded callback b

      -- with the same limit on the threads that run
      abbrev pub Succeeds : ℕ → Option (Barrier R W) → Type 0
      Succeeds limit run =
          (b' : Barrier R W) × (run ≡ some b') × (b'.parallel_threads ≡ limit) × Good b'

      proceed :
          {b : Barrier R W} (limit : ℕ)
          → b.parallel_threads ≡ limit
          → 0 < limit
          → IsSound b
          → Succeeds limit (try_wake_next rand_int callback b)
      proceed limit e some_may h =
          let (b', ok, h', turns, lim, live) =
            try_wake_next-Proceeds rand_int bounded callback h (omega arith) in
          (b', ok, lim ∙ e, record { sound = h'; live = live })

      join-Succeeds :
          {b : Barrier R W} (tid : ℕ)
          → IsSound b
          → 0 < b.parallel_threads
          → MayJoin b tid
          → Succeeds b.parallel_threads (join rand_int callback b tid)
      unfolding join
      join-Succeeds {b} tid h some_may may =
          let (b₁, e₁, w) = enlist_ends b tid rand_int callback h may in
          rw e₁ (proceed b.parallel_threads w.limit_same some_may w.sound)

      abbrev stopped : Barrier R W → ℕ → Barrier R W
      stopped b tid = record b {
        futex_word = write b.futex_word tid 1;
        state = write b.state tid waiting;
        running_threads = sub32 b.running_threads 1;
      }

      one_runs :
          {b : Barrier R W} (tid : ℕ)
          → IsSound b
          → b.state tid ≡ running
          → (0 < b.running_threads) × (tid < max_threads)
      one_runs {b} tid h e =
          let low = h.counted.below tid (rw e refl) in
          (
            omega (
              arith,
              h.counted.running_count,
              count-pos is_running max_threads b.state tid low (rw e refl),
            ),
            low,
          )

      stopped-IsSound :
          {b : Barrier R W} (tid : ℕ) → IsSound b → b.state tid ≡ running → IsSound (stopped b tid)
      stopped-IsSound {b} tid h e =
          let (pos, low) = one_runs tid h e in
          record {
            listed = move-IsListed h.listed tid waiting (rw e refl) refl (λ p. cc);
            counted =
                set-IsCounted tid waiting b.run_list_size (sub32 b.running_threads 1) b.left_threads
                  h.counted low (rw e refl) (rw e (omega (arith, size-le h, counts-le h)))
                  (rw e refl);
            in_list = h.in_list;
            limited = omega (arith, h.limited, size-le h, counts-le h);
            ready = λ t ht. ground (arith, h.ready t);
            passed = λ t ht. ground (arith, h.passed t);
          }

      sync-Succeeds :
          {b : Barrier R W} (tid : ℕ)
          → IsSound b
          → 0 < b.parallel_threads
          → b.state tid ≡ running
          → Succeeds b.parallel_threads (sync rand_int callback b tid)
      unfolding sync
      sync-Succeeds {b} tid h some_may e =
          rw e (proceed b.parallel_threads refl some_may (stopped-IsSound tid h e))

      abbrev gone : Barrier R W → ℕ → ℕ → Barrier R W
      gone b tid running_threads = record b {
        state = write b.state tid left;
        left_threads = add32 b.left_threads 1;
        running_threads = running_threads;
      }

      gone_running-IsSound :
          {b : Barrier R W} (tid : ℕ)
          → IsSound b
          → b.state tid ≡ running
          → IsSound (gone b tid (sub32 b.running_threads 1))
      gone_running-IsSound {b} tid h e =
          let (pos, low) = one_runs tid h e in
          let here = h.listed.known tid (rw e refl) in
          record {
            listed = move-IsListed h.listed tid left (rw e refl) refl (λ p. here);
            counted =
                set-IsCounted tid left b.run_list_size (sub32 b.running_threads 1)
                  (add32 b.left_threads 1) h.counted low (rw e refl)
                  (rw e (omega (arith, size-le h, counts-le h)))
                  (rw e (omega (arith, size-le h, counts-le h)));
            in_list = h.in_list;
            limited = omega (arith, h.limited, size-le h, counts-le h);
            ready = λ t ht. ground (arith, h.ready t);
            passed = λ t ht. ground (arith, h.passed t);
          }

      gone_waiting-IsSound :
          {b : Barrier R W} (tid : ℕ)
          → IsSound b
          → b.state tid ≡ waiting
          → (b.last_idx tid < b.run_list_size) × (b.run_list (b.last_idx tid) ≡ tid)
          → IsSound (gone b tid b.running_threads)
      gone_waiting-IsSound {b} tid h e here =
          let low = h.counted.below tid (rw e refl) in
          record {
            listed = move-IsListed h.listed tid left (rw e refl) refl (λ p. here);
            counted =
                set-IsCounted tid left b.run_list_size b.running_threads (add32 b.left_threads 1)
                  h.counted low (rw e refl) (rw e refl)
                  (rw e (omega (arith, size-le h, counts-le h)));
            in_list = h.in_list;
            limited = h.limited;
            ready = λ t ht. ground (arith, h.ready t);
            passed = λ t ht. ground (arith, h.passed t);
          }

      leave-Succeeds :
          {b : Barrier R W} (tid : ℕ)
          → Good b
          → 0 < b.parallel_threads
          → MayLeave b tid
          → Succeeds b.parallel_threads (leave rand_int callback b tid)
      unfolding leave leave_from
      leave-Succeeds {b} tid good some_may (inl e) =
          rw e (proceed b.parallel_threads refl some_may (gone_running-IsSound tid good.sound e))
      leave-Succeeds {b} tid good some_may (inr (e, lo, at)) = rw e (
        gone b tid b.running_threads,
        refl,
        refl,
        record {
          sound = gone_waiting-IsSound tid good.sound e (lo, at);
          live = λ t ht. good.live t (ground arith);
        },
      )

      pub call-Succeeds :
          {b : Barrier R W} (c : Call)
          → Good b
          → 0 < b.parallel_threads
          → May b c
          → Succeeds b.parallel_threads (perform b c)
      call-Succeeds (joins tid) good some_may may = join-Succeeds tid good.sound some_may may
      call-Succeeds (leaves tid) good some_may may = leave-Succeeds tid good some_may may
      call-Succeeds (syncs tid) good some_may may = sync-Succeeds tid good.sound some_may may
