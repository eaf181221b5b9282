-- ===== src/Barrier/Cleanup.antt =====
-- zsim/src/barrier.h: the pass that takes the threads that left off the list, at the end of a phase.
use csce614_group_project.Base.{
  count-zero, ℕ, zero, suc, ◌-◌, ◌<◌, ◌≤◌, ◌≡◌, inl, inr, refl, sym, ap, subst, ◌∙◌, Bool-cases,
  true, false, some, ltb, ltb→lt, lt→ltb, ◌==◌, sub32, arith,
}
use csce614_group_project.Barrier.{Barrier, is_offline, is_left, clean_loop, cleanup}
use csce614_group_project.Barrier.Counted.{max_threads, nobody_runs, IsCounted}
use csce614_group_project.Barrier.Invariant.{IsSound, size-le}
use csce614_group_project.Barrier.Rounds.{
  is_left_eq, positive, count_test, Cleans, removed, removed-Cleans, removed-Spares,
  clean_next_left, clean_next_stays, stays-Cleans, at_end, within, Spares, Spares-refl,
  Spares-trans,
}

module _ {R W : Type 0} where
  clean_loop_ends :
      (n : ℕ) (b : Barrier R W) (idx size kept : ℕ)
      → Cleans b idx size kept
      → size - idx ≤ n
      → let (b', size') = clean_loop n b idx size in
        (kept' : ℕ) × Cleans b' size' size' kept'
        × Spares b b'
        × (b'.run_list_size ≡ b.run_list_size)
        × (b'.left_threads ≡ b.left_threads)
  unfolding clean_loop
  clean_loop_ends zero b idx size kept h hn =
      (kept, subst (λ k. Cleans b k size kept) (at_end h hn) h, Spares-refl b, refl, refl)
  clean_loop_ends (suc n) b idx size kept h hn = elim (Bool-cases (ltb idx size)) [
    | inr q ↦ rw q (
      kept,
      subst (λ k. Cleans b k size kept) (at_end h (ground arith)) h,
      Spares-refl b,
      refl,
      refl,
    )
    | inl q ↦ elim (Bool-cases (is_left (b.state (b.run_list idx)))) [
      | inl p ↦
          let (kept₁, h₁) = removed-Cleans h (ltb→lt _ _ q) p in
          let (kept₂, h₂, w, e₁, e₂) =
            clean_loop_ends n (removed b idx size) idx (size - 1) kept₁ h₁ (omega arith) in
          rw (q, clean_next_left b idx size p (positive idx size q) h.small)
            (kept₂, h₂, Spares-trans (removed-Spares b idx size p) w, e₁, e₂)
      | inr p ↦
          rw (q, clean_next_stays b idx size p (within h q))
            (clean_loop_ends n b (suc idx) size kept (stays-Cleans h (ltb→lt _ _ q) p)
              (omega arith))
    ]
  ]

  nobody_left :
      {b : Barrier R W} {size kept : ℕ}
      → Cleans b size size kept
      → (t : ℕ) → is_left (b.state t) ≡ false
  nobody_left {b} h t = elim (Bool-cases (is_left (b.state t))) [
    | inr p ↦ p
    | inl p ↦
        let on : is_offline (b.state t) ≡ false = rw (is_left_eq (b.state t) p) refl in
        let (i, hi, e) = h.listed.place t on in sym (ap (λ u. is_left (b.state u)) e) ∙ h.done i hi
  ]

  none_kept : {b : Barrier R W} {size kept : ℕ} → Cleans b size size kept → kept ≡ 0
  none_kept {b} h =
      h.counted.left_count ∙ count-zero is_left max_threads b.state (λ t ht. nobody_left h t)

  -- The pass takes just the threads that left off the list, and its count of them is the counter's.
  pub cleanup_ends :
      {b : Barrier R W}
      → IsSound b
      → 0 < b.run_list_size
      → b.cur_thread_idx ≡ 0
      → b.running_threads ≡ 0
      → (b' : Barrier R W) × (cleanup b ≡ some b') × IsSound b' × Spares b b'
  unfolding cleanup
  cleanup_ends {b} h some_on rewound none_running =
      let (kept, h', w, e₁, e₂) =
        clean_loop_ends b.run_list_size b 0 b.run_list_size b.left_threads start (omega arith) in
      let zero_kept = none_kept h' in
      let size = (clean_loop b.run_list_size b 0 b.run_list_size).1 in
      let test : (sub32 b.run_list_size size == b.left_threads) ≡ true =
        count_test b.run_list_size size b.left_threads (omega (arith, zero_kept, h'.spent, e₁, e₂))
          (omega (arith, h'.size-le, e₁)) (size-le h) in
      rw (lt→ltb _ _ some_on, test)
        (
          _,
          refl,
          record {
            listed = h'.listed;
            counted = subst (IsCounted _ size _) zero_kept h'.counted;
            in_list = omega (arith, w.cur_same);
            limited = omega (arith, w.running_same);
            ready = h'.ready;
            passed =
                λ t ht. let off = nobody_runs h'.counted (w.running_same ∙ none_running) t in cc;
          },
          record {
            limit_same = w.limit_same;
            cur_same = w.cur_same;
            running_same = w.running_same;
            sched_same = w.sched_same;
            states = w.states;
          },
        )
    where
      start : Cleans b 0 b.run_list_size b.left_threads
      start = record {
        listed = h.listed;
        counted = h.counted;
        spent = refl;
        idx-le = omega arith;
        size-le = omega arith;
        small = size-le h;
        done = λ i hi. absurd (omega arith);
        ready = h.ready;
      }
