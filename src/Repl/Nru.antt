-- ===== src/Repl/Nru.antt =====
-- zsim/src/repl_policies.h, class NRUReplPolicy, and the `rank` of LegacyReplPolicy, which records
-- each candidate and then asks for the best. `none` is a failed assertion.
use csce614_group_project.Base.{
  ℕ, ◌+◌, ◌/◌, ◌%◌, Option, none, some, List, [], ◌∷◌, Array, write, add32, sub32, ltb, leb, ◌==◌,
  if◌then◌else◌, ◌>>◌, ◌>>=◌, require,
}
use csce614_group_project.Hierarchy.{MemReq}
pub mod Victim
mod Tests

pub record Nru : Type 0 where
  pub array : Array ℕ
  pub cand_array : Array ℕ
  pub num_lines : ℕ
  pub young_lines : ℕ
  pub cand_val : ℕ
  pub cand_idx : ℕ

-- (1 << 20)
abbrev pub no_val : ℕ
no_val = 1048576

pub init : ℕ → Nru
init num_lines = record {
  array = λ id. 0;
  cand_array = λ k. 0;
  num_lines = num_lines;
  young_lines = 0;
  cand_val = no_val;
  cand_idx = 0;
}

-- `array[id] |= 0x2`, and the count of young lines
mark : Nru → ℕ → Nru
mark p id = record p {
  young_lines = add32 p.young_lines (sub32 1 (p.array id / 2));
  array = write p.array id (if p.array id / 2 % 2 == 1 then p.array id else p.array id + 2);
}

-- once half of the lines are young, all grow old
shift : Nru → Nru
shift p =
    if leb (p.num_lines / 2) p.young_lines
    then record p {
      array = λ id. if ltb id p.num_lines then p.array id / 2 else p.array id;
      young_lines = 0;
    }
    else p

pub update : Nru → ℕ → MemReq → Nru
unfolding mark shift
update p id req = shift (mark p id)

pub record_candidate : Nru → ℕ → Nru
record_candidate p id =
    if ltb (p.array id) p.cand_val
    then record p { cand_val = p.array id; cand_array = write p.cand_array 0 id; cand_idx = 1 }
    else (if p.array id == p.cand_val
        then record p {
          cand_array = write p.cand_array p.cand_idx id;
          cand_idx = add32 p.cand_idx 1;
        }
        else p)

pub get_best_candidate : Nru → Option ℕ
get_best_candidate p =
    require (ltb 0 p.cand_idx) >> some (p.cand_array (p.young_lines % p.cand_idx))

pub record_all : Nru → List ℕ → Nru
unfolding record_candidate
record_all p [] = p
record_all p (c ∷ cs) = record_all (record_candidate p c) cs

abbrev with_state : Nru → ℕ → Option (ℕ × Nru)
with_state p best = some (best, p)

pub rank : Nru → MemReq → List ℕ → Option (ℕ × Nru)
unfolding record_all get_best_candidate
rank p req cands = let q = record_all p cands in get_best_candidate q >>= with_state q

pub replaced : Nru → ℕ → Nru
replaced p id = record p { cand_val = no_val; cand_idx = 0; array = write p.array id 0 }
