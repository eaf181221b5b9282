-- ===== src/Barrier.antt =====
-- zsim/src/barrier.h, class Barrier: threads join, leave and synchronise at the end of each phase, and at
-- most `parallel_threads` of them run at a time. A thread blocks while its state is `waiting`, and the
-- write of 0 to its futex word lets it go on, so an operation ends where it would block. The random
-- numbers and the callback of the scheduler are parameters. `none` is a failed assertion or a panic.
-- Each loop recurses on the number of its rounds left, which every round lowers by one.
use csce614_group_project.Base.{
  ℕ, zero, suc, ◌-◌, ◌%◌, Bool, true, false, ◌&&◌, ◌||◌, Option, none, some, Array, write, add32,
  sub32, ltb, ◌==◌, if◌then◌else◌, ◌>>=◌, ◌>>◌, require,
}
pub mod Listed
pub mod Counted
pub mod Invariant
pub mod Wakes
pub mod Wake
pub mod Rounds
pub mod Cleanup
pub mod Phase
pub mod Join
pub mod Steps
pub mod Runs
pub mod Progress
mod Tests

pub data State : Type 0 where
  offline waiting running left : State

abbrev pub is_offline : State → Bool
is_offline offline = true
is_offline _ = false

abbrev pub is_waiting : State → Bool
is_waiting waiting = true
is_waiting _ = false

abbrev pub is_running : State → Bool
is_running running = true
is_running _ = false

abbrev pub is_left : State → Bool
is_left left = true
is_left _ = false

-- ThreadSyncInfo is three arrays, indexed by the thread.
pub record Barrier (R W : Type 0) : Type 0 where
  pub parallel_threads : ℕ
  pub state : Array State
  pub futex_word : Array ℕ
  pub last_idx : Array ℕ
  pub run_list : Array ℕ
  pub run_list_size : ℕ
  pub cur_thread_idx : ℕ
  pub running_threads : ℕ
  pub left_threads : ℕ
  pub phase_count : ℕ
  pub rnd : R
  pub sched : W

module _ {R W : Type 0} where
  -- the constructor; `last_idx` is what the memory holds
  pub init : ℕ → Array ℕ → R → W → Barrier R W
  init parallel_threads last_idx rnd sched = record {
    parallel_threads = parallel_threads;
    state = λ t. offline;
    futex_word = λ t. 0;
    last_idx = last_idx;
    run_list = λ i. 0;
    run_list_size = 0;
    cur_thread_idx = 0;
    running_threads = 0;
    left_threads = 0;
    phase_count = 0;
    rnd = rnd;
    sched = sched;
  }

  -- the exchange of two positions, of `join` and of the shuffle
  pub swap : Barrier R W → ℕ → ℕ → Barrier R W
  swap b i j =
      let itid = b.run_list i in
      let jtid = b.run_list j in
      record b {
        run_list = write (write b.run_list i jtid) j itid;
        last_idx = write (write b.last_idx itid j) jtid i;
      }

  wake : Barrier R W → ℕ → ℕ → State → Option (Barrier R W)
  wake b idx wtid waiting = do
    require (b.futex_word wtid == 1)
    some (record b {
      state = write b.state wtid running;
      last_idx = write b.last_idx wtid idx;
      futex_word = write b.futex_word wtid 0;
      running_threads = add32 b.running_threads 1;
    })
  wake b idx wtid _ = some b

  -- one round of `checkRunList`
  pub wake_next : Barrier R W → Option (Barrier R W)
  wake_next b =
      let idx = b.cur_thread_idx in
      let wtid = b.run_list idx in
      wake (record b { cur_thread_idx = add32 idx 1 }) idx wtid (b.state wtid)

  pub wake_loop : ℕ → Barrier R W → Option (Barrier R W)
  wake_loop zero b = some b
  wake_loop (suc n) b =
      let rest = wake_next b >>= wake_loop n in
      if ltb b.running_threads b.parallel_threads && ltb b.cur_thread_idx b.run_list_size
      then rest
      else some b

  pub check_run_list : Barrier R W → Option (Barrier R W)
  check_run_list b = wake_loop (b.run_list_size - b.cur_thread_idx) b

  -- one round of the cleanup pass: the barrier, `idx` and `newSize`
  pub clean_next : Barrier R W → ℕ → ℕ → Barrier R W × ℕ × ℕ
  clean_next b idx new_size =
      let wtid = b.run_list idx in
      let stid = b.run_list (sub32 new_size 1) in
      if is_left (b.state wtid)
      then (
        record b {
          state = write b.state wtid offline;
          run_list = write b.run_list idx stid;
          last_idx = write b.last_idx stid idx;
        },
        idx,
        sub32 new_size 1,
      )
      else (b, add32 idx 1, new_size)

  pub clean_loop : ℕ → Barrier R W → ℕ → ℕ → Barrier R W × ℕ
  clean_loop zero b idx new_size = (b, new_size)
  clean_loop (suc n) b idx new_size =
      let (b', idx', new_size') = clean_next b idx new_size in
      let rest = clean_loop n b' idx' new_size' in if ltb idx new_size then rest else (b, new_size)

  pub cleanup : Barrier R W → Option (Barrier R W)
  cleanup b = do
    require (ltb 0 b.run_list_size)
    let (b', new_size) = clean_loop b.run_list_size b 0 b.run_list_size
    require (sub32 b.run_list_size new_size == b.left_threads)
    some (record b' { left_threads = 0; run_list_size = new_size })

  module _ (rand_int : R → ℕ → ℕ × R) (callback : W → W) where
    -- the Fisher–Yates shuffle, from position `i` down
    pub shuffle : ℕ → Barrier R W → Barrier R W
    shuffle zero b = b
    shuffle (suc i) b =
        let (j, rnd) = rand_int b.rnd (suc i) in shuffle i (swap (record b { rnd = rnd }) (suc i) j)

    -- `phaseCount++` and the pass over the list, one time out of 32
    pub count_phase : Barrier R W → Option (Barrier R W)
    count_phase b =
        let b' = record b { phase_count = add32 b.phase_count 1 } in
        if b.phase_count % 32 == 0 then cleanup b' else some b'

    pub mix : Barrier R W → Barrier R W
    mix b =
        if ltb b.parallel_threads b.run_list_size then shuffle (sub32 b.run_list_size 1) b else b

    pub end_phase : Barrier R W → Option (Barrier R W)
    end_phase b = do
      b' ← count_phase (record b { sched = callback b.sched; cur_thread_idx = 0 })
      some (mix b')

    pub check_end_phase : Barrier R W → Option (Barrier R W)
    check_end_phase b =
        if b.cur_thread_idx == b.run_list_size && b.running_threads == 0
        then (if b.left_threads == b.run_list_size then some b else end_phase b)
        else some b

    pub try_wake_next : Barrier R W → Option (Barrier R W)
    try_wake_next b = do b₁ ← check_run_list b; b₂ ← check_end_phase b₁; check_run_list b₂

    -- back on the list: at its end, or before `cur_thread_idx` when it has run in this phase
    pub enlist : Barrier R W → ℕ → State → Option (Barrier R W)
    enlist b tid offline = some (record b {
      run_list = write b.run_list b.run_list_size tid;
      run_list_size = add32 b.run_list_size 1;
    })
    enlist b tid left =
        let b' = record b { left_threads = sub32 b.left_threads 1 } in
        let last = b.last_idx tid in
        let cur = sub32 b.cur_thread_idx 1 in
        if ltb last b.cur_thread_idx
        then (do
          require (tid == b.run_list last)
          some (swap (record b' { cur_thread_idx = cur }) cur last))
        else some b'
    enlist b tid _ = none

    pub join : Barrier R W → ℕ → Option (Barrier R W)
    join b tid = do
      b' ← enlist b tid (b.state tid)
      try_wake_next
          (record b' { state = write b'.state tid waiting; futex_word = write b'.futex_word tid 1 })

    leave_from : Barrier R W → ℕ → State → Option (Barrier R W)
    leave_from b tid running = try_wake_next (record b {
      state = write b.state tid left;
      left_threads = add32 b.left_threads 1;
      running_threads = sub32 b.running_threads 1;
    })
    leave_from b tid waiting =
        some (record b { state = write b.state tid left; left_threads = add32 b.left_threads 1 })
    leave_from b tid _ = none

    pub leave : Barrier R W → ℕ → Option (Barrier R W)
    leave b tid = leave_from b tid (b.state tid)

    pub sync : Barrier R W → ℕ → Option (Barrier R W)
    sync b tid = do
      require (is_running (b.state tid))
      try_wake_next (record b {
        futex_word = write b.futex_word tid 1;
        state = write b.state tid waiting;
        running_threads = sub32 b.running_threads 1;
      })
