-- ===== src/Barrier/Phase.antt =====
-- zsim/src/barrier.h: the end of a phase, with its callback, the pass over the list and the shuffle.
use csce614_group_project.Base.{
  ℕ, zero, suc, ◌+◌, ◌<◌, ◌≤◌, ◌%◌, ◌≡◌, ◌≢◌, ◌⊎◌, inl, inr, refl, ◌∙◌, Bool-cases, false, some,
  ltb, ltb→lt, ◌==◌, sub32, add32, arith,
}
use csce614_group_project.Barrier.{
  Barrier, offline, left, swap, shuffle, count_phase, mix, end_phase, check_end_phase,
}
use csce614_group_project.Barrier.Listed.{swap-IsListed}
use csce614_group_project.Barrier.Counted.{nobody_runs}
use csce614_group_project.Barrier.Invariant.{IsSound, size-le, counts-le}
use csce614_group_project.Barrier.Cleanup.{cleanup_ends}
use csce614_group_project.Barrier.Rounds.{Spares, Spares-refl, Spares-trans}

module _ {R W : Type 0} where
  swap-Spares : (b : Barrier R W) (i j : ℕ) → Spares b (swap b i j)
  unfolding swap
  swap-Spares b i j = record {
    limit_same = refl;
    cur_same = refl;
    running_same = refl;
    sched_same = refl;
    states = λ t. inl refl;
  }

  swap-IsSound :
      {b : Barrier R W}
      → IsSound b
      → b.running_threads ≡ 0
      → (i j : ℕ) → i < b.run_list_size
      → j < b.run_list_size
      → IsSound (swap b i j)
  unfolding swap
  swap-IsSound {b} h idle i j hi hj = record {
    listed = swap-IsListed h.listed i j hi hj;
    counted = h.counted;
    in_list = h.in_list;
    limited = h.limited;
    ready = h.ready;
    passed = λ t ht. let off = nobody_runs h.counted idle t in cc;
  }

  with_rnd-IsSound : {b : Barrier R W} (rnd : R) → IsSound b → IsSound (record b { rnd = rnd })
  with_rnd-IsSound rnd h = record {
    listed = h.listed;
    counted = h.counted;
    in_list = h.in_list;
    limited = h.limited;
    ready = h.ready;
    passed = h.passed;
  }

  rewind-IsSound :
      {b : Barrier R W} (sched : W) (phase_count : ℕ)
      → IsSound b
      → b.running_threads ≡ 0
      → IsSound (record b { sched = sched; cur_thread_idx = 0; phase_count = phase_count })
  rewind-IsSound sched phase_count h idle = record {
    listed = h.listed;
    counted = h.counted;
    in_list = omega arith;
    limited = h.limited;
    ready = h.ready;
    passed = λ t ht. let off = nobody_runs h.counted idle t in cc;
  }

  module _ (rand_int : R → ℕ → ℕ × R) (bounded : (r : R) (n : ℕ) → (rand_int r n).0 ≤ n)
      (callback : W → W) where
    shuffle_ends :
        (i : ℕ) (b : Barrier R W)
        → IsSound b
        → b.running_threads ≡ 0
        → (i ≡ 0) ⊎ (i < b.run_list_size)
        → IsSound (shuffle rand_int callback i b) × Spares b (shuffle rand_int callback i b)
    unfolding shuffle swap
    shuffle_ends zero b h idle hi = (h, Spares-refl b)
    shuffle_ends (suc i) b h idle hi =
        let (j, rnd) = rand_int b.rnd (suc i) in
        let b' : Barrier R W = record b { rnd = rnd } in
        let low : suc i < b.run_list_size = ground arith in
        let low' : j < b.run_list_size = omega (arith, bounded b.rnd (suc i)) in
        let w = swap-Spares b' (suc i) j in
        let v : Spares b b' = record {
          limit_same = refl;
          cur_same = refl;
          running_same = refl;
          sched_same = refl;
          states = λ t. inl refl;
        } in
        let (h', w') =
          shuffle_ends i (swap b' (suc i) j)
            (swap-IsSound (with_rnd-IsSound rnd h) idle (suc i) j low low') (w.running_same ∙ idle)
            (inr (omega arith)) in
        (h', Spares-trans v (Spares-trans w w'))

    -- The phase ends: every thread of the list had its turn, none runs, and some have not left.
    pub record PhaseEnds (b b' : Barrier R W) : Type 0 where
      pub all_passed : b.cur_thread_idx ≡ b.run_list_size
      pub idle : b.running_threads ≡ 0
      pub some_stay : b.left_threads < b.run_list_size
      pub called : b'.sched ≡ callback b.sched
      pub rewound : b'.cur_thread_idx ≡ 0
      pub limit_same : b'.parallel_threads ≡ b.parallel_threads
      pub still_idle : b'.running_threads ≡ 0
      pub states :
          (t : ℕ) → (b'.state t ≡ b.state t) ⊎ ((b.state t ≡ left) × (b'.state t ≡ offline))

    mix_ends :
        (b : Barrier R W)
        → IsSound b
        → b.running_threads ≡ 0
        → IsSound (mix rand_int callback b) × Spares b (mix rand_int callback b)
    unfolding mix
    mix_ends b h idle = elim (Bool-cases (ltb b.parallel_threads b.run_list_size)) [
      | inr p ↦ rw p (h, Spares-refl b)
      | inl p ↦
          rw p (shuffle_ends (sub32 b.run_list_size 1) b h idle (inr (last_in b h (ltb→lt _ _ p))))
    ]
      where
        last_in :
            (b : Barrier R W)
            → IsSound b
            → b.parallel_threads < b.run_list_size
            → sub32 b.run_list_size 1 < b.run_list_size
        last_in b h p = omega (arith, size-le h)

    count_phase_ends :
        {b : Barrier R W}
        → IsSound b
        → 0 < b.run_list_size
        → b.running_threads ≡ 0
        → (b' : Barrier R W) × (count_phase rand_int callback
              (record b { sched = callback b.sched; cur_thread_idx = 0 })
            ≡ some b')
          × IsSound b'
          × Spares (record b { sched = callback b.sched; cur_thread_idx = 0 }) b'
    unfolding count_phase
    count_phase_ends {b} h on idle =
        let h' = rewind-IsSound (callback b.sched) (add32 b.phase_count 1) h idle in
        elim (Bool-cases (b.phase_count % 32 == 0)) [
          | inr p ↦ rw p (
            _,
            refl,
            h',
            record {
              limit_same = refl;
              cur_same = refl;
              running_same = refl;
              sched_same = refl;
              states = λ t. inl refl;
            },
          )
          | inl p ↦
              let (b', e, h₁, w) = cleanup_ends h' on refl idle in
              rw p (
                b',
                e,
                h₁,
                record {
                  limit_same = w.limit_same;
                  cur_same = w.cur_same;
                  running_same = w.running_same;
                  sched_same = w.sched_same;
                  states = w.states;
                },
              )
        ]

    end_phase_ends :
        {b : Barrier R W}
        → IsSound b
        → b.cur_thread_idx ≡ b.run_list_size
        → b.running_threads ≡ 0
        → b.left_threads < b.run_list_size
        → (b' : Barrier R W) × (end_phase rand_int callback b ≡ some b')
          × IsSound b'
          × PhaseEnds b b'
    unfolding end_phase
    end_phase_ends {b} h top idle stay =
        let (b₁, e, h₁, v) = count_phase_ends h (omega arith) idle in
        let (h₂, w) = mix_ends b₁ h₁ (v.running_same ∙ idle) in
        let u = Spares-trans v w in
        (
          mix rand_int callback b₁,
          rw e refl,
          h₂,
          record {
            all_passed = top;
            idle = idle;
            some_stay = stay;
            called = u.sched_same;
            rewound = u.cur_same;
            limit_same = u.limit_same;
            still_idle = u.running_same ∙ idle;
            states = u.states;
          },
        )

    -- where the check leaves the barrier as it is
    abbrev pub GoesOn : Barrier R W → Type 0
    GoesOn b =
        (b.cur_thread_idx ≢ b.run_list_size)
        ⊎ (b.running_threads ≢ 0)
        ⊎ (b.left_threads ≡ b.run_list_size)

    pub check_end_phase_ends :
        {b : Barrier R W}
        → IsSound b
        → (b' : Barrier R W) × (check_end_phase rand_int callback b ≡ some b')
          × IsSound b'
          × (((b' ≡ b) × GoesOn b) ⊎ PhaseEnds b b')
    unfolding check_end_phase
    check_end_phase_ends {b} h = elim (Bool-cases (b.cur_thread_idx == b.run_list_size)) [
      | inr p ↦ rw p (b, refl, h, inl (refl, inl (ground arith)))
      | inl p ↦ elim (Bool-cases (b.running_threads == 0)) [
        | inr q ↦ rw (p, q) (b, refl, h, inl (refl, inr (inl (ground arith))))
        | inl q ↦ elim (Bool-cases (b.left_threads == b.run_list_size)) [
          | inl r ↦ rw (p, q, r) (b, refl, h, inl (refl, inr (inr (ground arith))))
          | inr r ↦
              let (b', e, h', w) =
                end_phase_ends h (ground arith) (ground arith) (fewer _ _ _ r (counts-le h)) in
              rw (p, q, r) (b', e, h', inr w)
        ]
      ]
    ]
      where
        fewer : (k m n : ℕ) → (m == n) ≡ false → k + m ≤ n → m < n
        fewer k m n r le = ground arith
