-- ===== src/Repl/Nru/Tests.antt =====
-- NRU with two lines.
use csce614_group_project.Base.{ℕ, ◌≡◌, some, [], ◌∷◌, arith}
use csce614_group_project.Repl.Samples.{request}
use csce614_group_project.Repl.Nru.{Nru, init, rank}
use csce614_group_project.Repl.Nru.Victim.{Picks, init-Ready, rank-Picks}

nru_rank_example :
    (best : ℕ) × (q : Nru) × (rank (init 2) (request 64 400) (0 ∷ 1 ∷ []) ≡ some (best, q))
    × Picks (init 2) (0 ∷ 1 ∷ []) best q
nru_rank_example = rank-Picks (init 2) (request 64 400) 0 (1 ∷ []) (init-Ready 2) (omega arith)
