-- ===== src/Repl/Srrip.antt =====
-- zsim/src/rrip_repl.h, class SRRIPReplPolicy.
use csce614_group_project.Base.{
  ℕ, ◌+◌, Option, none, some, List, Array, write, add32, add64, sub64, ltb, ◌==◌, if◌then◌else◌,
}
use csce614_group_project.Hierarchy.{MemReq}
use csce614_group_project.Repl.Aging.{search}
use csce614_group_project.Repl.Policy.{Policy}
pub mod Laws
mod Tests

pub record Srrip : Type 0 where
  pub num_lines : ℕ
  pub rpvmax : ℕ
  pub array : Array ℕ

-- the constructor
pub init : ℕ → ℕ → Srrip
init num_lines rpvmax = record {
  num_lines = num_lines;
  rpvmax = rpvmax;
  array = λ id. if ltb id num_lines then rpvmax else 0;
}

pub update : Srrip → ℕ → MemReq → Srrip
update p id req =
    if p.array id == add32 p.rpvmax 1
    then record p { array = write p.array id (sub64 (p.array id) 2) }
    else record p { array = write p.array id 0 }

pub replaced : Srrip → ℕ → Srrip
replaced p id = record p { array = write p.array id (add32 p.rpvmax 1) }

abbrev value : ℕ → ℕ
value v = v

abbrev grow_older : ℕ → ℕ
grow_older v = add64 v 1

keep_lines : Srrip → Option (ℕ × Array ℕ) → Option (ℕ × Srrip)
keep_lines p none = none
keep_lines p (some (best, lines)) = some (best, record p { array = lines })

-- One round of the loop more than `rpvmax` is all that a bounded array needs.
pub rank : Srrip → MemReq → List ℕ → Option (ℕ × Srrip)
unfolding keep_lines search
rank p req cands = keep_lines p (search value grow_older (p.rpvmax + 1) p.rpvmax p.array cands)

-- what `postinsert` makes of the line: `replaced`, then `update`
pub refill : Srrip → ℕ → MemReq → Srrip
unfolding update replaced
refill p id req = update (replaced p id) id req

abbrev pub policy : Policy
policy = record {
  State = Srrip;
  update = λ p id req. some (update p id req);
  replaced = replaced;
  rank = rank;
}
