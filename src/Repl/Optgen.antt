-- ===== src/Repl/Optgen.antt =====
-- zsim/src/hawkeye_repl.h, class optgen: the record of past accesses to each set, and the
-- decision whether an optimal policy would have hit. TIME_QUANTUM is 1 and every set is sampled.
use csce614_group_project.Base.{
  ℕ, zero, suc, ◌+◌, ◌-◌, ◌*◌, ◌/◌, ◌%◌, Bool, true, false, Option, none, some, Array, write, add32,
  sub32, mul32, u32_mod, ◌==◌, ltb, leb, if◌then◌else◌, ◌>>=◌,
}
pub mod Ring
pub mod Walk
pub mod Laws
pub mod Capacity
pub mod Again
mod Tests

pub record Optgen : Type 0 where
  pub num_lines : ℕ
  pub num_ways : ℕ
  pub vector_size : ℕ
  pub set_count : ℕ
  pub access_count : Array ℕ
  pub is_sampled : Array Bool
  pub history : Array ℕ
  pub occupancy_vector : Array ℕ

-- the constructor; the sets below `set_count` are sampled
unfoldable pub init : ℕ → ℕ → Optgen
init num_lines num_ways = record {
  num_lines = num_lines;
  num_ways = num_ways;
  vector_size = mul32 num_ways 8;
  set_count = num_lines / num_ways;
  access_count = λ set. 0;
  is_sampled = λ set. ltb set (num_lines / num_ways);
  history = λ k. 0;
  occupancy_vector = λ k. 0;
}

unfoldable pub sampled : Optgen → ℕ → Bool
sampled g set = g.is_sampled set

-- `int32_t idx % uint32_t vector_size` is taken in `uint32_t`, and read back as an `int`, which is
-- negative from 2^31 on. Numbers are given and returned as 32-bit patterns.
pub wrap_index : ℕ → ℕ → ℕ
wrap_index size idx =
    let result = idx % u32_mod % size in if ltb result 2147483648 then result else add32 result size

-- Back from `i` to the newest slot that holds the address, or to `hist_idx`.
pub find_back : ℕ → ℕ → Array ℕ → ℕ → ℕ → ℕ → ℕ → Option ℕ
unfolding wrap_index
find_back zero size history offset address hist_idx idx = none
find_back (suc f) size history offset address hist_idx idx =
    let rest = find_back f size history offset address hist_idx (wrap_index size (sub32 idx 1)) in
    if idx == hist_idx
    then some idx
    else (if history (add32 offset idx) == address then some idx else rest)

-- Forward from `idx` to `hist_idx`: is every slot below the capacity?
pub has_room : ℕ → ℕ → ℕ → Array ℕ → ℕ → ℕ → ℕ → Option Bool
unfolding wrap_index
has_room zero size ways occupancy offset hist_idx idx = none
has_room (suc f) size ways occupancy offset hist_idx idx =
    let rest = has_room f size ways occupancy offset hist_idx (wrap_index size (add32 idx 1)) in
    if idx == hist_idx
    then some true
    else (if leb ways (occupancy (add32 offset idx)) then some false else rest)

-- Forward from `idx` to `hist_idx`, one more line in every slot.
pub occupy : ℕ → ℕ → Array ℕ → ℕ → ℕ → ℕ → Option (Array ℕ)
unfolding wrap_index
occupy zero size occupancy offset hist_idx idx = none
occupy (suc f) size occupancy offset hist_idx idx =
    let k = add32 offset idx in
    let rest =
      occupy f size (write occupancy k (add32 (occupancy k) 1)) offset hist_idx
        (wrap_index size (add32 idx 1)) in
    if idx == hist_idx then some occupancy else rest

-- the start of an access: count it, and clear the slot of the new time quantum
pub open_slot : Optgen → ℕ → ℕ → ℕ → ℕ → Optgen
open_slot g address set hist_idx offset = record g {
  access_count = write g.access_count set (add32 (g.access_count set) 1);
  occupancy_vector = write g.occupancy_vector (add32 offset hist_idx) 0;
  history = write g.history (add32 offset hist_idx) address;
}

-- the last loop, if the interval has room
pub fill : ℕ → Optgen → ℕ → ℕ → ℕ → Bool → Option (Bool × Optgen)
unfolding occupy
fill f g offset hist_idx idx false = some (false, g)
fill f g offset hist_idx idx true = do
  occupancy ← occupy f g.vector_size g.occupancy_vector offset hist_idx idx
  some (true, record g { occupancy_vector = occupancy })

-- after the search: a first access, or a reuse since the slot `idx`
pub decide_hit : ℕ → Optgen → ℕ → ℕ → ℕ → Option (Bool × Optgen)
unfolding has_room fill
decide_hit f g offset hist_idx idx =
    let room = has_room f g.vector_size g.num_ways g.occupancy_vector offset hist_idx idx in
    if idx == hist_idx then some (false, g) else (room >>= fill f g offset hist_idx idx)

-- `hist_idx`: the slot of the time quantum that the next access to the set opens
pub now : Optgen → ℕ → ℕ
unfolding wrap_index
now g set = wrap_index g.vector_size (add32 (g.access_count set) 1)

-- the search and the decision, once the new slot is open
pub look_back : ℕ → Optgen → ℕ → ℕ → ℕ → Option (Bool × Optgen)
unfolding wrap_index find_back decide_hit
look_back f g address hist_idx offset = do
  let first = wrap_index g.vector_size (sub32 hist_idx 1)
  idx ← find_back f g.vector_size g.history offset address hist_idx first
  decide_hit f g offset hist_idx idx

-- the body for a sampled set, from its `hist_idx` and its `set_offset`
pub access_at : ℕ → Optgen → ℕ → ℕ → ℕ → ℕ → Option (Bool × Optgen)
unfolding open_slot look_back
access_at f g address set hist_idx offset =
    look_back f (open_slot g address set hist_idx offset) address hist_idx offset

-- `none` means that one of the three loops made more than `f` rounds.
unfoldable pub cache_access : ℕ → Optgen → ℕ → ℕ → Option (Bool × Optgen)
unfolding access_at now
cache_access f g address set =
    if g.is_sampled set
    then access_at f g address set (now g set) (mul32 set g.vector_size)
    else some (false, g)
