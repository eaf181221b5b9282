-- ===== src/Barrier/Runs.antt =====
-- zsim/src/barrier.h: what holds in every state that the threads' calls can bring the barrier to.
use csce614_group_project.Base.{
  ℕ, ◌<◌, ◌≤◌, ◌≡◌, refl, sym, subst, ◌∙◌, Option, some, Array, write, arith,
}
use mathlib.Core.Option.{some-injective}
use csce614_group_project.Barrier.{Barrier, waiting, init, join}
use csce614_group_project.Barrier.Invariant.{IsSound, init-IsSound}
use csce614_group_project.Barrier.Progress.{try_wake_next_keeps}
use csce614_group_project.Barrier.Join.{enlist_ends}
use csce614_group_project.Barrier.Steps.{
  MayJoin, Call, May, perform, Step, calls, Reach, start, later, Good, Succeeds, call-Succeeds,
}

module _ {R W : Type 0} (rand_int : R → ℕ → ℕ × R)
    (bounded : (r : R) (n : ℕ) → (rand_int r n).0 ≤ n) (callback : W → W) (parallel_threads : ℕ)
    (last_idx : Array ℕ) (rnd : R) (sched : W) (some_may : 0 < parallel_threads) where
  abbrev Kept : Barrier R W → Type 0
  Kept b = (b.parallel_threads ≡ parallel_threads) × Good rand_int callback bounded b

  result :
      {b' : Barrier R W} {run : Option (Barrier R W)} {limit : ℕ}
      → limit ≡ parallel_threads
      → Succeeds rand_int callback bounded limit run
      → run ≡ some b'
      → Kept b'
  result same (b₁, ok, lim, good) e =
      subst (λ b. (b.parallel_threads ≡ parallel_threads) × Good rand_int callback bounded b)
        (some-injective _ _ (sym ok ∙ e)) (lim ∙ same, good)

  step-Kept : {b b' : Barrier R W} → Kept b → Step rand_int callback b b' → Kept b'
  step-Kept (lim, good) (calls c may e) =
      result lim (call-Succeeds rand_int callback bounded c good (omega arith) may) e

  init-Kept : Kept (init parallel_threads last_idx rnd sched)
  unfolding init
  init-Kept =
      (refl, record { sound = init-IsSound parallel_threads last_idx rnd sched; live = λ t ht. cc })

  reach-Kept :
      {b : Barrier R W} → Reach rand_int callback parallel_threads last_idx rnd sched b → Kept b
  reach-Kept start = init-Kept
  reach-Kept (later r st) = step-Kept (reach-Kept r) st

  -- With draws within their bounds and at least one thread that may run, whatever calls the threads
  -- make, each when its thread may make it: the run list holds each thread that is not offline once,
  -- the counters count the threads in their states, no more than `parallel_threads` run, each of them
  -- was woken in this phase, and a thread that waits can be woken.
  pub reach-IsSound :
      {b : Barrier R W}
      → Reach rand_int callback parallel_threads last_idx rnd sched b
      → IsSound b × (b.running_threads ≤ parallel_threads)
  reach-IsSound r =
      let (lim, good) = reach-Kept r in (good.sound, omega (arith, lim, good.sound.limited))

  -- With draws within their bounds and at least one thread that may run: in every state that the
  -- barrier can come to, some thread runs if any waits: no call leaves all the threads that take part
  -- blocked.
  pub no_deadlock :
      {b : Barrier R W}
      → Reach rand_int callback parallel_threads last_idx rnd sched b
      → (t : ℕ) → b.state t ≡ waiting
      → 0 < b.running_threads
  no_deadlock r t e = let (lim, good) = reach-Kept r in good.live t (rw e refl)

  -- the call comes back, to a state that can be reached
  abbrev pub Returns : Option (Barrier R W) → Type 0
  Returns run =
      (b' : Barrier R W) × (run ≡ some b')
      × Reach rand_int callback parallel_threads last_idx rnd sched b'

  -- With draws within their bounds and at least one thread that may run: in every state that the
  -- barrier can come to, each call that a thread may make succeeds: no assertion of it fails, its
  -- loops end, and no wakeup races.
  pub calls_succeed :
      {b : Barrier R W}
      → Reach rand_int callback parallel_threads last_idx rnd sched b
      → (c : Call) → May b c
      → Returns (perform rand_int callback b c)
  calls_succeed {b} r c may =
      let (lim, good) = reach-Kept r in
      let (b', e, same, good') = call-Succeeds rand_int callback bounded c good (omega arith) may in
      (b', e, later r (calls c may e))

  -- With draws within their bounds and at least one thread that may run: in every state that the
  -- barrier can come to, a thread that joins does not end a phase: the callback is not called, and
  -- some thread runs after the call.
  pub join_keeps_phase :
      {b : Barrier R W}
      → Reach rand_int callback parallel_threads last_idx rnd sched b
      → (tid : ℕ) → MayJoin b tid
      → (b' : Barrier R W) × (join rand_int callback b tid ≡ some b')
        × (b'.sched ≡ b.sched)
        × (0 < b'.running_threads)
  unfolding join
  join_keeps_phase {b} r tid may =
      let (lim, good) = reach-Kept r in
      let (b₁, e₁, w) = enlist_ends b tid rand_int callback good.sound may in
      let mine : write b₁.state tid waiting (b₁.run_list w.idx) ≡ waiting =
        ground (arith, w.found) in
      let (b₂, e₂, wakes, busy) =
        try_wake_next_keeps rand_int bounded callback w.idx w.sound (omega (arith, w.limit_same))
          w.ahead w.on_list mine in
      rw (e₁, e₂) (b₂, refl, wakes.sched_same ∙ w.sched_same, busy)
