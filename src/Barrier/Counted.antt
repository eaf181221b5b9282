-- ===== src/Barrier/Counted.antt =====
-- zsim/src/barrier.h: the counters of the barrier against the states of the threads.
use csce614_group_project.Base.{
  weight, count, count-write, count-pos, count-sum, ℕ, ◌+◌, ◌<◌, ◌≡◌, refl, Bool-cases, inl, inr,
  Bool, true, false, Array, write, arith,
}
use csce614_group_project.Barrier.{
  State, offline, waiting, running, left, is_offline, is_waiting, is_running, is_left,
}

abbrev pub max_threads : ℕ
max_threads = 2048

abbrev pub is_on : State → Bool
is_on offline = false
is_on _ = true

one_state :
    (s : State)
    → weight (is_on s) ≡ weight (is_waiting s) + weight (is_running s) + weight (is_left s)
one_state offline = refl
one_state waiting = refl
one_state running = refl
one_state left = refl

-- A thread that is on the list waits, runs or has left.
pub count_on :
    (n : ℕ) (state : Array State)
    → count is_on n state
      ≡ count is_waiting n state + count is_running n state + count is_left n state
count_on = count-sum is_on is_waiting is_running is_left one_state

pub record IsCounted (state : Array State) (size running_threads left_threads : ℕ) : Type 0 where
  pub below : (t : ℕ) → is_offline (state t) ≡ false → t < max_threads
  pub on_list : size ≡ count is_on max_threads state
  pub running_count : running_threads ≡ count is_running max_threads state
  pub left_count : left_threads ≡ count is_left max_threads state

-- one thread changes its state, and the counters with it
pub set-IsCounted :
    {state : Array State} {size running_threads left_threads : ℕ} (t : ℕ) (s : State)
    (size' running' left' : ℕ)
    → IsCounted state size running_threads left_threads
    → t < max_threads
    → size' + weight (is_on (state t)) ≡ size + weight (is_on s)
    → running' + weight (is_running (state t)) ≡ running_threads + weight (is_running s)
    → left' + weight (is_left (state t)) ≡ left_threads + weight (is_left s)
    → IsCounted (write state t s) size' running' left'
set-IsCounted {state} t s size' running' left' h ht e₁ e₂ e₃ = record {
  below = λ u hu. ground (arith, h.below u);
  on_list = omega (arith, h.on_list, count-write is_on max_threads state t s ht);
  running_count = omega (arith, h.running_count, count-write is_running max_threads state t s ht);
  left_count = omega (arith, h.left_count, count-write is_left max_threads state t s ht);
}

running_on : (s : State) → is_running s ≡ true → is_offline s ≡ false
running_on running h = refl
running_on offline h = cc
running_on waiting h = cc
running_on left h = cc

-- where the counter of the running threads is 0, none runs
pub nobody_runs :
    {state : Array State} {size running_threads left_threads : ℕ}
    → IsCounted state size running_threads left_threads
    → running_threads ≡ 0
    → (t : ℕ) → is_running (state t) ≡ false
nobody_runs {state} h e t = elim (Bool-cases (is_running (state t))) [
  | inr p ↦ p
  | inl p ↦ absurd (
      omega (
        arith,
        e,
        h.running_count,
        count-pos is_running max_threads state t (h.below t (running_on (state t) p)) p,
      ))
]
