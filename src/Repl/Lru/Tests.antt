-- ===== src/Repl/Lru/Tests.antt =====
-- LRU with lines that are all valid and unshared.
use csce614_group_project.Base.{ℕ, ◌≤◌, ◌≡◌, refl, true, false, List, [], ◌∷◌, elem, arith}
use csce614_group_project.Repl.Samples.{request, two_lines, two_lines-IsCands}
use csce614_group_project.Repl.Lru.{Lines, init, update, rank, short_score}
use csce614_group_project.Repl.Lru.Victim.{IsLeast, rank-IsLeast}
use csce614_group_project.Repl.Lru.History.{use_all, last_use, rank_least_recent}

abbrev all_valid : Lines
all_valid = record { num_sharers = λ id. 0; is_valid = λ id. true }

abbrev uses : List ℕ
uses = 0 ∷ 1 ∷ 0 ∷ []

-- Line 1 was used before line 0's last use.
victim_test :
    rank false all_valid (use_all (init 2) (request 64 400) uses) (request 128 400) two_lines ≡ 1
unfolding rank use_all update init
victim_test = refl

rank_least_recent_example :
    (elem
        (rank false all_valid (use_all (init 2) (request 64 400) uses) (request 128 400) two_lines)
        two_lines
      ≡ true)
    × (last_use 1 uses (
          rank false all_valid (use_all (init 2) (request 64 400) uses) (request 128 400) two_lines)
        ≤ last_use 1 uses 0)
rank_least_recent_example =
    rank_least_recent 2 all_valid (request 64 400) (request 128 400) uses two_lines 0 refl
      (omega arith) (λ id. refl)

rank-IsLeast_example :
    IsLeast
      (short_score true all_valid (init 2))
      two_lines
      (rank true all_valid (init 2) (request 64 400) two_lines)
rank-IsLeast_example =
    rank-IsLeast true all_valid (init 2) (request 64 400) two_lines two_lines-IsCands.nonempty
