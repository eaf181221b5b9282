-- ===== src/Repl/Lfu/Tests.antt =====
-- LFU where line 1 is not valid.
use csce614_group_project.Base.{ℕ, ◌≤◌, ◌≡◌, refl, true, some, [], ◌∷◌, elem, ◌==◌}
use csce614_group_project.Repl.Samples.{request}
use csce614_group_project.Repl.Lru.{Lines}
use csce614_group_project.Repl.Lfu.{Lfu, init, rank}
use csce614_group_project.Repl.Lfu.Victim.{class_of, rank-class}

abbrev line_1_invalid : Lines
line_1_invalid = record { num_sharers = λ id. 0; is_valid = λ id. id == 0 }

lfu_rank_example :
    (best : ℕ) × (q : Lfu) × (rank line_1_invalid (init 2) (request 64 400) (0 ∷ 1 ∷ [])
      ≡ some (best, q))
    × (elem best (0 ∷ 1 ∷ []) ≡ true)
    × (class_of line_1_invalid best ≤ class_of line_1_invalid 1)
unfolding init
lfu_rank_example = rank-class line_1_invalid (init 2) (request 64 400) 0 (1 ∷ []) 1 refl refl
