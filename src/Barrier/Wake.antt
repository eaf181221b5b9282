-- ===== src/Barrier/Wake.antt =====
-- zsim/src/barrier.h: the threads that `checkRunList` wakes.
use csce614_group_project.Base.{
  ℕ, zero, suc, ◌-◌, ◌<◌, ◌≤◌, ◌≡◌, ◌⊎◌, inl, inr, refl, Bool-cases, false, Option, some, write,
  ltb, ltb→lt, add32, arith,
}
use csce614_group_project.Barrier.{
  Barrier, State, offline, waiting, running, left, wake, wake_next, wake_loop, check_run_list,
}
use csce614_group_project.Barrier.Listed.{set-IsListed}
use csce614_group_project.Barrier.Counted.{set-IsCounted}
use csce614_group_project.Barrier.Invariant.{IsSound, size-le, counts-le}
use csce614_group_project.Barrier.Wakes.{Wakes-one, reached, Wakes, Wakes-refl, Wakes-trans}

module _ {R W : Type 0} where
  -- what one round promises
  abbrev Succeeds : Barrier R W → Option (Barrier R W) → Type 0
  Succeeds b run =
      (b' : Barrier R W) × (run ≡ some b')
      × IsSound b'
      × Wakes b b'
      × (b'.cur_thread_idx ≡ suc b.cur_thread_idx)

  advance-IsSound :
      {b : Barrier R W}
      → IsSound b
      → b.cur_thread_idx < b.run_list_size
      → IsSound (record b { cur_thread_idx = add32 b.cur_thread_idx 1 })
  advance-IsSound {b} h hi = record {
    listed = h.listed;
    counted = h.counted;
    in_list = omega (arith, size-le h);
    limited = h.limited;
    ready = h.ready;
    passed = λ t ht. omega (arith, h.passed t ht, size-le h);
  }

  skip :
      {b : Barrier R W}
      → IsSound b
      → b.cur_thread_idx < b.run_list_size
      → reached (b.state (b.run_list b.cur_thread_idx)) ≡ b.state (b.run_list b.cur_thread_idx)
      → Succeeds b (some (record b { cur_thread_idx = add32 b.cur_thread_idx 1 }))
  skip {b} h hi e = (
    _,
    refl,
    advance-IsSound h hi,
    Wakes-one h hi (omega (arith, size-le h)) refl refl refl refl refl (λ t. ground (arith, e)),
    omega (arith, size-le h),
  )

  module _ {b : Barrier R W} (h : IsSound b) (hi : b.cur_thread_idx < b.run_list_size)
      (lim : b.running_threads < b.parallel_threads) where
    wtid : ℕ
    wtid = b.run_list b.cur_thread_idx

    abbrev woken_barrier : Barrier R W
    woken_barrier = record b {
      cur_thread_idx = add32 b.cur_thread_idx 1;
      state = write b.state wtid running;
      last_idx = write b.last_idx wtid b.cur_thread_idx;
      futex_word = write b.futex_word wtid 0;
      running_threads = add32 b.running_threads 1;
    }

    woken_barrier-IsSound : b.state wtid ≡ waiting → IsSound woken_barrier
    unfolding wtid
    woken_barrier-IsSound e = record {
      listed =
          set-IsListed h.listed wtid running b.cur_thread_idx (rw e refl) refl (λ p. (hi, refl));
      counted =
          set-IsCounted wtid running b.run_list_size (add32 b.running_threads 1) b.left_threads
            h.counted (h.counted.below wtid (rw e refl)) (rw e refl)
            (rw e (omega (arith, size-le h, counts-le h))) (rw e refl);
      in_list = omega (arith, size-le h);
      limited = omega (arith, size-le h, counts-le h);
      ready = λ t ht. ground (arith, h.ready t);
      passed = λ t ht. ground (arith, h.passed t, size-le h);
    }

    wake_case :
        (st : State)
        → b.state wtid ≡ st
        → Succeeds b
            (wake (record b { cur_thread_idx = add32 b.cur_thread_idx 1 }) b.cur_thread_idx wtid st)
    unfolding wake wtid
    wake_case offline e = skip h hi (rw e refl)
    wake_case running e = skip h hi (rw e refl)
    wake_case left e = skip h hi (rw e refl)
    wake_case waiting e = (
      woken_barrier,
      rw (h.ready wtid (rw e refl)) refl,
      woken_barrier-IsSound e,
      Wakes-one h hi (omega (arith, size-le h)) refl refl refl refl refl (λ t. ground (arith, e)),
      omega (arith, size-le h),
    )

    pub wake_next-Succeeds : Succeeds b (wake_next b)
    unfolding wake_next wtid
    wake_next-Succeeds = wake_case (b.state wtid) refl

  -- where the loop of `checkRunList` ends
  abbrev pub IsFull : Barrier R W → Type 0
  IsFull b = (b.parallel_threads ≤ b.running_threads) ⊎ (b.run_list_size ≤ b.cur_thread_idx)

  abbrev pub Ends : Barrier R W → Option (Barrier R W) → Type 0
  Ends b run = (b' : Barrier R W) × (run ≡ some b') × IsSound b' × Wakes b b' × IsFull b'

  stop : (b : Barrier R W) → IsSound b → IsFull b → Ends b (some b)
  stop b h full = (b, refl, h, Wakes-refl b, full)

  in_list_of :
      {b b₁ b₂ : Barrier R W}
      → IsSound b₂
      → Wakes b b₁
      → Wakes b₁ b₂
      → b₂.cur_thread_idx ≤ b.run_list_size
  in_list_of h₂ w₁ w₂ = omega (arith, h₂.in_list, w₁.size_same, w₂.size_same)

  wake_loop-Ends :
      (n : ℕ) (b : Barrier R W)
      → IsSound b
      → b.run_list_size - b.cur_thread_idx ≤ n
      → Ends b (wake_loop n b)
  unfolding wake_loop
  wake_loop-Ends zero b h hn = stop b h (inr (omega arith))
  wake_loop-Ends (suc n) b h hn = elim (Bool-cases (ltb b.running_threads b.parallel_threads)) [
    | inr p ↦ rw p (stop b h (inl (ground arith)))
    | inl p ↦ elim (Bool-cases (ltb b.cur_thread_idx b.run_list_size)) [
      | inr q ↦ rw (p, q) (stop b h (inr (ground arith)))
      | inl q ↦
          let (b₁, e, h₁, w₁, one) = wake_next-Succeeds h (ltb→lt _ _ q) (ltb→lt _ _ p) in
          let (b₂, e₂, h₂, w₂, full) = wake_loop-Ends n b₁ h₁ (omega (arith, one, w₁.size_same)) in
          rw (p, q, e) (b₂, e₂, h₂, Wakes-trans h (in_list_of h₂ w₁ w₂) w₁ w₂, full)
    ]
  ]

  -- From a sound barrier the loop ends with no wakeup race, at the limit on the threads that run or at
  -- the end of the list, leaves the barrier sound, and has woken just the waiting threads of the
  -- positions that it passed.
  pub check_run_list-Ends : {b : Barrier R W} → IsSound b → Ends b (check_run_list b)
  unfolding check_run_list
  check_run_list-Ends {b} h = wake_loop-Ends (b.run_list_size - b.cur_thread_idx) b h (omega arith)

  wake_loop_full : (n : ℕ) (b : Barrier R W) → IsFull b → wake_loop n b ≡ some b
  unfolding wake_loop
  wake_loop_full zero b full = refl
  wake_loop_full (suc n) b (inl most) =
      let p : ltb b.running_threads b.parallel_threads ≡ false = ground arith in rw p refl
  wake_loop_full (suc n) b (inr end) =
      let p : ltb b.cur_thread_idx b.run_list_size ≡ false = ground arith in
      elim (Bool-cases (ltb b.running_threads b.parallel_threads)) [
        | inl q ↦ rw (q, p) refl
        | inr q ↦ rw q refl
      ]

  -- A second pass finds nothing to do.
  pub check_run_list_full : (b : Barrier R W) → IsFull b → check_run_list b ≡ some b
  unfolding check_run_list
  check_run_list_full b full = wake_loop_full (b.run_list_size - b.cur_thread_idx) b full
