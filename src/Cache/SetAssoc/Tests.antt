-- ===== src/Cache/SetAssoc/Tests.antt =====
-- Two sets of two ways with SRRIP.
use csce614_group_project.Base.{ℕ, ◌≡◌, refl, some, arith}
use csce614_group_project.Repl.Samples.{request}
use csce614_group_project.Repl.Srrip.{Srrip}
use csce614_group_project.Repl.Srrip
use csce614_group_project.Repl.Srrip.Laws.{laws, init-Bounded}
use csce614_group_project.Cache.SetAssoc.{SetAssocArray, find, find_from, preinsert, postinsert}
use csce614_group_project.Cache.SetAssoc.Insertion.{IsValid, Inserts, insertion}

abbrev low_bits : ℕ → ℕ → ℕ
low_bits fn addr = addr

abbrev empty : SetAssocArray Srrip
empty = record { array = λ id. 0; rp = Srrip.init 4 3; num_lines = 4; num_sets = 2; assoc = 2 }

empty-IsValid : IsValid low_bits Srrip.policy laws empty
unfolding laws
empty-IsValid = record {
  some_ways = omega arith;
  some_sets = omega arith;
  fits = omega arith;
  policy_ok = init-Bounded 4 3 (omega arith) (omega arith);
}

insertion_example :
    (id : ℕ) × (wb : ℕ) × (g1 : SetAssocArray Srrip) × (g2 : SetAssocArray Srrip) × (preinsert
        low_bits Srrip.policy empty 77
        (request 77 400)
      ≡ some (id, wb, g1))
    × (postinsert low_bits Srrip.policy g1 77 (request 77 400) id ≡ some g2)
    × Inserts low_bits Srrip.policy laws empty 77 id wb g2
unfolding find find_from
insertion_example =
    insertion low_bits Srrip.policy laws empty 77 (request 77 400) empty-IsValid refl
