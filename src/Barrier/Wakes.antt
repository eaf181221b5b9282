-- ===== src/Barrier/Wakes.antt =====
-- zsim/src/barrier.h: what it is that `checkRunList` wakes some threads and does nothing else.
use csce614_group_project.Base.{
  ℕ, suc, ◌<◌, ◌≤◌, ◌≡◌, ◌≢◌, inl, inr, refl, sym, ap, ◌∙◌, Bool-cases, ltb, ltb→lt, ◌==◌,
  if◌then◌else◌, arith,
}
use csce614_group_project.Barrier.{Barrier, State, waiting, running}
use csce614_group_project.Barrier.Invariant.{IsSound}

abbrev pub reached : State → State
reached waiting = running
reached s = s

module _ {R W : Type 0} where
  -- From `b` to `b'` the waiting threads of the positions from the one's `cur_thread_idx` to the
  -- other's began to run, and nothing else happened.
  pub record Wakes (b b' : Barrier R W) : Type 0 where
    pub list_same : b'.run_list ≡ b.run_list
    pub size_same : b'.run_list_size ≡ b.run_list_size
    pub limit_same : b'.parallel_threads ≡ b.parallel_threads
    pub left_same : b'.left_threads ≡ b.left_threads
    pub sched_same : b'.sched ≡ b.sched
    pub cur_grows : b.cur_thread_idx ≤ b'.cur_thread_idx
    pub woken :
        (i : ℕ)
        → b.cur_thread_idx ≤ i
        → i < b'.cur_thread_idx
        → b'.state (b.run_list i) ≡ reached (b.state (b.run_list i))
    pub kept :
        (t : ℕ)
        → ((i : ℕ) → b.cur_thread_idx ≤ i → i < b'.cur_thread_idx → b.run_list i ≢ t)
        → b'.state t ≡ b.state t

  pub Wakes-refl : (b : Barrier R W) → Wakes b b
  Wakes-refl b = record {
    list_same = refl;
    size_same = refl;
    limit_same = refl;
    left_same = refl;
    sched_same = refl;
    cur_grows = omega arith;
    woken = λ i h h'. absurd (omega arith);
    kept = λ t h. refl;
  }

  pub Wakes-one :
      {b b₁ : Barrier R W}
      → IsSound b
      → b.cur_thread_idx < b.run_list_size
      → b₁.cur_thread_idx ≡ suc b.cur_thread_idx
      → b₁.run_list ≡ b.run_list
      → b₁.run_list_size ≡ b.run_list_size
      → b₁.parallel_threads ≡ b.parallel_threads
      → b₁.left_threads ≡ b.left_threads
      → b₁.sched ≡ b.sched
      → ((t : ℕ)
          → b₁.state t
            ≡ (if t == b.run_list b.cur_thread_idx then reached (b.state t) else b.state t))
      → Wakes b b₁
  Wakes-one {b} {b₁} h hi e₁ e₂ e₃ e₄ e₅ e₆ states = record {
    list_same = e₂;
    size_same = e₃;
    limit_same = e₄;
    left_same = e₅;
    sched_same = e₆;
    cur_grows = omega (arith, e₁);
    woken = λ i l l'.
        let p : i ≡ b.cur_thread_idx = omega (arith, e₁) in
        ground (arith, p, states (b.run_list i));
    kept = λ t not_here.
        ground (arith, states t, not_here b.cur_thread_idx (omega arith) (omega (arith, e₁)));
  }

  pub Wakes-trans :
      {b b₁ b₂ : Barrier R W}
      → IsSound b
      → b₂.cur_thread_idx ≤ b.run_list_size
      → Wakes b b₁
      → Wakes b₁ b₂
      → Wakes b b₂
  Wakes-trans {b} {b₁} {b₂} h top v w = record {
    list_same = w.list_same ∙ v.list_same;
    size_same = w.size_same ∙ v.size_same;
    limit_same = w.limit_same ∙ v.limit_same;
    left_same = w.left_same ∙ v.left_same;
    sched_same = w.sched_same ∙ v.sched_same;
    cur_grows = omega (arith, v.cur_grows, w.cur_grows);
    woken = λ i l l'. elim (Bool-cases (ltb i b₁.cur_thread_idx)) [
      | inl p ↦ w.kept (b.run_list i) (later i l (ltb→lt _ _ p)) ∙ v.woken i l (ltb→lt _ _ p)
      | inr p ↦ first i l (ground arith) l'
    ];
    kept = λ t out.
        w.kept t (λ i l l' e. out i (omega (arith, v.cur_grows)) l' (sym (same i) ∙ e))
        ∙ v.kept t (λ i l l'. out i l (omega (arith, w.cur_grows)));
  }
    where
      same : (i : ℕ) → b₁.run_list i ≡ b.run_list i
      same i = ap (λ f. f i) v.list_same

      apart :
          (i j : ℕ)
          → i < b₁.cur_thread_idx
          → b₁.cur_thread_idx ≤ j
          → j < b₂.cur_thread_idx
          → b.run_list i ≢ b.run_list j
      apart i j l m m' e = absurd (omega (arith, h.listed.once i j (omega arith) (omega arith) e))

      first :
          (i : ℕ)
          → b.cur_thread_idx ≤ i
          → b₁.cur_thread_idx ≤ i
          → i < b₂.cur_thread_idx
          → b₂.state (b.run_list i) ≡ reached (b.state (b.run_list i))
      first i l l' l'' =
          let e : b₁.state (b.run_list i) ≡ b.state (b.run_list i) =
            v.kept (b.run_list i) (λ j m m' e. absurd (apart j i m' l' l'' e)) in
          ground (arith, w.woken i l' l'', same i, e)

      later :
          (i : ℕ)
          → b.cur_thread_idx ≤ i
          → i < b₁.cur_thread_idx
          → (j : ℕ) → b₁.cur_thread_idx ≤ j
          → j < b₂.cur_thread_idx
          → b₁.run_list j ≢ b.run_list i
      later i l l' j m m' e = apart i j l' m m' (sym e ∙ same j)
