-- ===== src/Barrier/Rounds.antt =====
-- zsim/src/barrier.h: a round of the pass that takes the threads that left off the list.
use csce614_group_project.Base.{
  count-pos, ℕ, suc, ◌+◌, ◌-◌, ◌<◌, ◌≤◌, ◌≡◌, ◌⊎◌, inl, refl, ◌∙◌, true, false, write, ltb, ltb→lt,
  ◌==◌, sub32, add32, arith,
}
use csce614_group_project.Barrier.{
  Barrier, State, offline, waiting, running, left, is_offline, is_waiting, is_left, clean_next,
}
use csce614_group_project.Barrier.Listed.{IsListed, remove-IsListed}
use csce614_group_project.Barrier.Counted.{max_threads, IsCounted, set-IsCounted}

pub is_left_eq : (s : State) → is_left s ≡ true → s ≡ left
is_left_eq left h = refl
is_left_eq offline h = cc
is_left_eq waiting h = cc
is_left_eq running h = cc

pub positive : (idx size : ℕ) → ltb idx size ≡ true → 0 < size
positive idx size q = ground arith

pub count_test :
    (size size' left_threads : ℕ)
    → left_threads + size' ≡ size
    → size' ≤ size
    → size ≤ max_threads
    → (sub32 size size' == left_threads) ≡ true
count_test size size' left_threads e h small = ground arith

module _ {R W : Type 0} where
  -- Before the round at `idx`, where `kept` threads that left are still on the list of `size`.
  pub record Cleans (b : Barrier R W) (idx size kept : ℕ) : Type 0 where
    pub listed : IsListed b.run_list size b.state b.last_idx
    pub counted : IsCounted b.state size b.running_threads kept
    pub spent : kept + b.run_list_size ≡ b.left_threads + size
    pub idx-le : idx ≤ size
    pub size-le : size ≤ b.run_list_size
    pub small : size ≤ max_threads
    pub done : (i : ℕ) → i < idx → is_left (b.state (b.run_list i)) ≡ false
    pub ready : (t : ℕ) → is_waiting (b.state t) ≡ true → b.futex_word t ≡ 1

  -- What the pass leaves alone.
  pub record Spares (b b' : Barrier R W) : Type 0 where
    pub limit_same : b'.parallel_threads ≡ b.parallel_threads
    pub cur_same : b'.cur_thread_idx ≡ b.cur_thread_idx
    pub running_same : b'.running_threads ≡ b.running_threads
    pub sched_same : b'.sched ≡ b.sched
    pub states : (t : ℕ) → (b'.state t ≡ b.state t) ⊎ ((b.state t ≡ left) × (b'.state t ≡ offline))

  pub Spares-refl : (b : Barrier R W) → Spares b b
  Spares-refl b = record {
    limit_same = refl;
    cur_same = refl;
    running_same = refl;
    sched_same = refl;
    states = λ t. inl refl;
  }

  pub Spares-trans : {b b₁ b₂ : Barrier R W} → Spares b b₁ → Spares b₁ b₂ → Spares b b₂
  Spares-trans {b} {b₁} {b₂} v w = record {
    limit_same = w.limit_same ∙ v.limit_same;
    cur_same = w.cur_same ∙ v.cur_same;
    running_same = w.running_same ∙ v.running_same;
    sched_same = w.sched_same ∙ v.sched_same;
    states = λ t. grind (arith, v.states t, w.states t);
  }

  abbrev pub removed : Barrier R W → ℕ → ℕ → Barrier R W
  removed b idx size = record b {
    state = write b.state (b.run_list idx) offline;
    run_list = write b.run_list idx (b.run_list (size - 1));
    last_idx = write b.last_idx (b.run_list (size - 1)) idx;
  }

  pub removed-Cleans :
      {b : Barrier R W} {idx size kept : ℕ}
      → Cleans b idx size kept
      → idx < size
      → is_left (b.state (b.run_list idx)) ≡ true
      → (kept' : ℕ) × Cleans (removed b idx size) idx (size - 1) kept'
  removed-Cleans {b} {idx} {size} {kept} h hi gone =
      let e = is_left_eq (b.state (b.run_list idx)) gone in
      let on : is_offline (b.state (b.run_list idx)) ≡ false = rw e refl in
      let low = h.counted.below (b.run_list idx) on in
      let some_left : 0 < kept = omega (
        arith,
        h.counted.left_count,
        count-pos is_left max_threads b.state (b.run_list idx) low gone,
      ) in
      (
        kept - 1,
        record {
          listed = remove-IsListed h.listed idx hi;
          counted =
              set-IsCounted (b.run_list idx) offline (size - 1) b.running_threads (kept - 1)
                h.counted low (rw e (omega arith)) (rw e (omega arith)) (rw e (omega arith));
          spent = omega (arith, h.spent);
          idx-le = omega arith;
          size-le = omega (arith, h.size-le);
          small = omega (arith, h.small);
          done = λ i hi'. ground (arith, h.done i hi');
          ready = λ t ht. ground (arith, h.ready t);
        },
      )

  pub removed-Spares :
      (b : Barrier R W) (idx size : ℕ)
      → is_left (b.state (b.run_list idx)) ≡ true
      → Spares b (removed b idx size)
  removed-Spares b idx size gone = record {
    limit_same = refl;
    cur_same = refl;
    running_same = refl;
    sched_same = refl;
    states = λ t. ground (arith, gone);
  }

  pub clean_next_left :
      (b : Barrier R W) (idx size : ℕ)
      → is_left (b.state (b.run_list idx)) ≡ true
      → 0 < size
      → size ≤ max_threads
      → clean_next b idx size ≡ (removed b idx size, idx, size - 1)
  unfolding clean_next
  clean_next_left b idx size p hp hs =
      let e : sub32 size 1 ≡ size - 1 = omega arith in rw (p, e) refl

  pub clean_next_stays :
      (b : Barrier R W) (idx size : ℕ)
      → is_left (b.state (b.run_list idx)) ≡ false
      → idx < max_threads
      → clean_next b idx size ≡ (b, suc idx, size)
  unfolding clean_next
  clean_next_stays b idx size p hs = let e : add32 idx 1 ≡ suc idx = omega arith in rw (p, e) refl

  pub stays-Cleans :
      {b : Barrier R W} {idx size kept : ℕ}
      → Cleans b idx size kept
      → idx < size
      → is_left (b.state (b.run_list idx)) ≡ false
      → Cleans b (suc idx) size kept
  stays-Cleans h hi p = record {
    listed = h.listed;
    counted = h.counted;
    spent = h.spent;
    idx-le = hi;
    size-le = h.size-le;
    small = h.small;
    done = λ i hi'. ground (arith, h.done i);
    ready = h.ready;
  }

  pub at_end :
      {b : Barrier R W} {idx size kept : ℕ} → Cleans b idx size kept → size - idx ≤ 0 → idx ≡ size
  at_end h hn = omega (arith, h.idx-le)

  pub within :
      {b : Barrier R W} {idx size kept : ℕ}
      → Cleans b idx size kept
      → ltb idx size ≡ true
      → idx < max_threads
  within {b} {idx} {size} h q = omega (arith, ltb→lt idx size q, h.small)
