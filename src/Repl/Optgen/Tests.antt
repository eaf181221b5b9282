-- ===== src/Repl/Optgen/Tests.antt =====
-- OPTgen for one set of one way, a ring of 8 slots, and for one set of 12 ways, whose 96 slots are no ring.
use csce614_group_project.Base.{
  ◌%◌, ◌≡◌, ◌↔◌, refl, Bool, true, none, some, arith, sub32, u32_mod, ltb,
}
use csce614_group_project.Repl.Optgen.{
  Optgen, cache_access, wrap_index, access_at, look_back, find_back, now, open_slot,
}
use csce614_group_project.Repl.Optgen.Ring.{wrap_index_zero}
use csce614_group_project.Repl.Optgen.Laws.{IsValid, Decides, Records, cache_access-Decides}
use csce614_group_project.Repl.Optgen.Capacity.{cache_access-IsValid}
use csce614_group_project.Repl.Optgen.Again.{cache_access_again}

-- two lines, two sets of one way
abbrev pair : Optgen
pair = record {
  num_lines = 2;
  num_ways = 1;
  vector_size = 8;
  set_count = 2;
  access_count = λ set. 0;
  is_sampled = λ set. ltb set 2;
  history = λ k. 0;
  occupancy_vector = λ k. 0;
}

pair-IsValid : IsValid pair
pair-IsValid = record {
  ring = record { positive = omega arith; small = omega arith; divides = refl };
  wide = omega arith;
  ways = omega arith;
  rows = λ set on. ground arith;
  capacity = λ k. omega arith;
  ways_fit = omega arith;
}

Decides_example :
    (r : Bool × Optgen) × (cache_access 9 pair 77 1 ≡ some r)
    × (Decides pair 77 1 r.1 r.0 × Records pair 77 1 r.1)
Decides_example = cache_access-Decides pair 77 1 pair-IsValid refl 9 (omega arith)

capacity_example :
    (hit : Bool) × (g2 : Optgen) × (cache_access 9 pair 77 1 ≡ some (hit, g2)) × IsValid g2
capacity_example = cache_access-IsValid 9 pair 77 1 pair-IsValid refl (omega arith)

again_example :
    (hit : Bool) × (g2 : Optgen) × (g3 : Optgen) × (cache_access 9 pair 77 1 ≡ some (hit, g2))
    × (cache_access 9 g2 77 1 ≡ some (true, g3))
    × (g2.is_sampled 1 ≡ true)
    × (g2.vector_size ≡ 8)
again_example = cache_access_again 9 pair 77 1 pair-IsValid refl (omega arith)

-- a set of 12 ways after 63 accesses, to other addresses than 77
abbrev twelve : Optgen
twelve = record {
  num_lines = 12;
  num_ways = 12;
  vector_size = 96;
  set_count = 1;
  access_count = λ set. 63;
  is_sampled = λ set. ltb set 1;
  history = λ k. 0;
  occupancy_vector = λ k. 0;
}

-- The search does not come to slot 64: back from slot 0 it goes on at slot 63.
stuck : (wrap_index 96 (sub32 0 1) ≡ 63) × (cache_access 97 twelve 77 0 ≡ none)
unfolding cache_access access_at look_back find_back wrap_index now open_slot
stuck = (refl, refl)

-- the size of 12 ways, which does not divide 2^32
wrap_index_zero_example : (wrap_index 96 (sub32 0 1) ≡ 95) ↔ (u32_mod % 96 ≡ 0)
wrap_index_zero_example = wrap_index_zero 96 (omega arith) (omega arith)
