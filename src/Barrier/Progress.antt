-- ===== src/Barrier/Progress.antt =====
-- zsim/src/barrier.h: `tryWakeNext`, and who runs after it.
use csce614_group_project.Base.{
  count-pos, ℕ, ◌<◌, ◌≤◌, ◌≡◌, ◌≢◌, inl, inr, refl, sym, ap, ◌∙◌, Bool-cases, true, false, Option,
  some, ◌==◌, arith,
}
use csce614_group_project.Barrier.{
  Barrier, State, offline, waiting, running, left, is_waiting, is_running, check_run_list,
  check_end_phase, try_wake_next,
}
use csce614_group_project.Barrier.Counted.{max_threads, count_on}
use csce614_group_project.Barrier.Invariant.{IsSound}
use csce614_group_project.Barrier.Wake.{IsFull, check_run_list-Ends, check_run_list_full}
use csce614_group_project.Barrier.Wakes.{Wakes, reached}
use csce614_group_project.Barrier.Phase.{PhaseEnds, GoesOn, check_end_phase_ends}

waiting_eq : (s : State) → is_waiting s ≡ true → s ≡ waiting
waiting_eq waiting h = refl
waiting_eq offline h = cc
waiting_eq running h = cc
waiting_eq left h = cc

reached_waits : (s : State) → reached s ≢ waiting
reached_waits offline e = cc
reached_waits waiting e = cc
reached_waits running e = cc
reached_waits left e = cc

module _ {R W : Type 0} where
  runner : {b : Barrier R W} → IsSound b → (t : ℕ) → b.state t ≡ running → 0 < b.running_threads
  runner {b} h t e = omega (
    arith,
    h.counted.running_count,
    count-pos is_running max_threads b.state t (h.counted.below t (rw e refl)) (rw e refl),
  )

  -- A thread that waits at a position that the loop passes runs then, so somebody does where the loop ends.
  pub full_runs :
      {b b' : Barrier R W} (i : ℕ)
      → IsSound b
      → IsSound b'
      → Wakes b b'
      → IsFull b'
      → 0 < b.parallel_threads
      → b.cur_thread_idx ≤ i
      → i < b.run_list_size
      → b.state (b.run_list i) ≡ waiting
      → 0 < b'.running_threads
  full_runs i h h' w (inl most) some_may l l' e = omega (arith, w.limit_same)
  full_runs {b} i h h' w (inr end) some_may l l' e =
      runner h' (b.run_list i) (w.woken i l (omega (arith, w.size_same)) ∙ ap reached e)

  -- The threads that were on the list are there still.
  waiter_left :
      {b : Barrier R W}
      → IsSound b
      → (t : ℕ) → is_waiting (b.state t) ≡ true
      → b.left_threads < b.run_list_size
  waiter_left {b} h t e =
      let e' = waiting_eq (b.state t) e in
      omega (
        arith,
        h.counted.on_list,
        h.counted.left_count,
        count_on max_threads b.state,
        count-pos is_waiting max_threads b.state t (h.counted.below t (rw e' refl)) e,
      )

  module _ (rand_int : R → ℕ → ℕ × R) (bounded : (r : R) (n : ℕ) → (rand_int r n).0 ≤ n)
      (callback : W → W) where
    -- the phase goes on, or it ends and the next one starts
    pub data Turns (b b' : Barrier R W) : Type 0 where
      same_phase : Wakes b b' → Turns b b'
      next_phase :
          (b₁ b₂ : Barrier R W)
          → Wakes b b₁
          → PhaseEnds rand_int bounded callback b₁ b₂
          → Wakes b₂ b'
          → Turns b b'

    -- After the wakeups somebody runs, if anybody waits.
    abbrev pub IsLive : Barrier R W → Type 0
    IsLive b = (t : ℕ) → is_waiting (b.state t) ≡ true → 0 < b.running_threads

    full-IsLive :
        {b : Barrier R W}
        → IsSound b
        → IsFull b
        → 0 < b.parallel_threads
        → GoesOn rand_int bounded callback b
        → IsLive b
    full-IsLive {b} h full some_may goes_on t e = ground (arith, h.in_list, waiter_left h t e)

    -- where the list was passed from its start, nobody waits
    all_passed-IsLive :
        {b b' : Barrier R W}
        → IsSound b'
        → Wakes b b'
        → b.cur_thread_idx ≡ 0
        → b'.run_list_size ≤ b'.cur_thread_idx
        → IsLive b'
    all_passed-IsLive {b} {b'} h' w start end t e =
        let e' = waiting_eq (b'.state t) e in
        let (i, hi, at) = h'.listed.place t (rw e' refl) in
        let same : b'.run_list i ≡ b.run_list i = ap (λ f. f i) w.list_same in
        let now = w.woken i (omega arith) (omega arith) in
        absurd (reached_waits (b.state (b.run_list i)) (sym now ∙ ap b'.state (sym same ∙ at) ∙ e'))

    new-IsLive :
        {b b' : Barrier R W}
        → IsSound b'
        → Wakes b b'
        → b.cur_thread_idx ≡ 0
        → 0 < b'.parallel_threads
        → IsFull b'
        → IsLive b'
    new-IsLive h' w start some_may (inl most) t e = omega arith
    new-IsLive h' w start some_may (inr end) t e = all_passed-IsLive h' w start end t e

    abbrev pub Proceeds : Barrier R W → Option (Barrier R W) → Type 0
    Proceeds b run =
        (b' : Barrier R W) × (run ≡ some b')
        × IsSound b'
        × Turns b b'
        × (b'.parallel_threads ≡ b.parallel_threads)
        × IsLive b'

    pub try_wake_next-Proceeds :
        {b : Barrier R W}
        → IsSound b
        → 0 < b.parallel_threads
        → Proceeds b (try_wake_next rand_int callback b)
    unfolding try_wake_next
    try_wake_next-Proceeds {b} h some_may =
        let (b₁, e₁, h₁, w₁, full₁) = check_run_list-Ends h in
        let (b₂, e₂, h₂, ended) = check_end_phase_ends rand_int bounded callback h₁ in
        elim ended [
          | inl (same, goes_on) ↦
              let e₃ : check_run_list b₂ ≡ some b₁ = rw same (check_run_list_full b₁ full₁) in
              rw (e₁, e₂, e₃)
                (
                  b₁,
                  refl,
                  h₁,
                  same_phase w₁,
                  w₁.limit_same,
                  full-IsLive h₁ full₁ (omega (arith, w₁.limit_same)) goes_on,
                )
          | inr w₂ ↦
              let (b₃, e₃, h₃, w₃, full₃) = check_run_list-Ends h₂ in
              let lim = w₃.limit_same ∙ w₂.limit_same ∙ w₁.limit_same in
              rw (e₁, e₂, e₃)
                (
                  b₃,
                  refl,
                  h₃,
                  next_phase b₁ b₂ w₁ w₂ w₃,
                  lim,
                  new-IsLive h₃ w₃ w₂.rewound (omega (arith, lim)) full₃,
                )
        ]

    check_end_phase_busy :
        (b : Barrier R W) → 0 < b.running_threads → check_end_phase rand_int callback b ≡ some b
    unfolding check_end_phase
    check_end_phase_busy b busy = elim (Bool-cases (b.cur_thread_idx == b.run_list_size)) [
      | inr p ↦ rw p refl
      | inl p ↦ let q : (b.running_threads == 0) ≡ false = ground arith in rw (p, q) refl
    ]

    -- A thread that waits where the loop has still to come keeps the phase going.
    pub try_wake_next_keeps :
        {b : Barrier R W} (i : ℕ)
        → IsSound b
        → 0 < b.parallel_threads
        → b.cur_thread_idx ≤ i
        → i < b.run_list_size
        → b.state (b.run_list i) ≡ waiting
        → (b' : Barrier R W) × (try_wake_next rand_int callback b ≡ some b')
          × Wakes b b'
          × (0 < b'.running_threads)
    unfolding try_wake_next
    try_wake_next_keeps i h some_may l l' e =
        let (b₁, e₁, h₁, w₁, full₁) = check_run_list-Ends h in
        let busy = full_runs i h h₁ w₁ full₁ some_may l l' e in
        rw (e₁, check_end_phase_busy b₁ busy, check_run_list_full b₁ full₁) (b₁, refl, w₁, busy)
