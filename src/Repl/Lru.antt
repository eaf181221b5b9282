-- ===== src/Repl/Lru.antt =====
-- zsim/src/repl_policies.h, class LRUReplPolicy. The coherence controller answers `numSharers` and
-- `isValid`; its answers are the argument `ctrl`.
use csce614_group_project.Base.{
  ℕ, ◌+◌, ◌*◌, ◌%◌, Bool, true, false, Option, some, List, [], ◌∷◌, Array, write, add64, u32_mod,
  u64_mod, no_cand, ltb, if◌then◌else◌, min,
}
use csce614_group_project.Hierarchy.{MemReq}
pub mod Victim
pub mod History
mod Tests

pub record Lines : Type 0 where
  pub num_sharers : ℕ → ℕ
  pub is_valid : ℕ → Bool

pub record Lru : Type 0 where
  pub timestamp : ℕ
  pub array : Array ℕ
  pub num_lines : ℕ

pub init : ℕ → Lru
init num_lines = record { timestamp = 1; array = λ id. 0; num_lines = num_lines }

pub update : Lru → ℕ → MemReq → Lru
update p id req = record p { array = write p.array id p.timestamp; timestamp = add64 p.timestamp 1 }

pub replaced : Lru → ℕ → Lru
replaced p id = record p { array = write p.array id 0 }

module _ (sharers_aware : Bool) (ctrl : Lines) where
  pub score : Lru → ℕ → ℕ
  score p id =
      ((if sharers_aware then ctrl.num_sharers id else 0) * p.timestamp
        + p.array id * (if ctrl.is_valid id then 1 else 0))
      % u64_mod

  -- `uint32_t s = score(*ci)` keeps the low 32 bits of the score
  pub short_score : Lru → ℕ → ℕ
  unfolding score
  short_score p id = score p id % u32_mod

-- the loop over the candidates, with `bestCand` and `bestScore`
pub least : (ℕ → ℕ) → ℕ → ℕ → List ℕ → ℕ
least s best best_score [] = best
least s best best_score (c ∷ cs) =
    least s (if ltb (s c) best_score then c else best) (min (s c) best_score) cs

pub rank : Bool → Lines → Lru → MemReq → List ℕ → ℕ
unfolding short_score least
rank sharers_aware ctrl p req cands =
    least (short_score sharers_aware ctrl p) no_cand 18446744073709551615 cands
