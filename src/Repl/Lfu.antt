-- ===== src/Repl/Lfu.antt =====
-- zsim/src/repl_policies.h, class LFUReplPolicy, with the `rank` of LegacyReplPolicy. The
-- coherence controller's answers are the argument `ctrl`. `none` is a failed assertion.
use csce614_group_project.Base.{
  ℕ, ◌+◌, ◌-◌, ◌*◌, ◌/◌, ◌%◌, Bool, true, false, not, ◌&&◌, ◌||◌, Option, none, some, List, [], ◌∷◌,
  Array, write, add64, sub64, u64_mod, ltb, ◌==◌, if◌then◌else◌,
}
use csce614_group_project.Hierarchy.{MemReq}
use csce614_group_project.Repl.Lru.{Lines}
pub mod Victim
mod Tests

pub record LfuInfo : Type 0 where
  pub ts : ℕ
  pub acc : ℕ

pub record Rank : Type 0 where
  pub lfu_info : LfuInfo
  pub sharers : ℕ
  pub valid : Bool

pub record Lfu : Type 0 where
  pub timestamp : ℕ
  pub best_candidate : Option ℕ
  pub array : Array LfuInfo
  pub num_lines : ℕ
  pub best_rank : Rank

-- `Rank::reset`
abbrev pub no_rank : Rank
no_rank = record { lfu_info = record { ts = 0; acc = 0 }; sharers = 0; valid = false }

-- the inverse frequency of a line, as the code computes it for `acc` above 0
abbrev pub inverse_frequency : ℕ → LfuInfo → ℕ
inverse_frequency now l = sub64 now l.ts / l.acc

-- the last two tests of `lessThan`
less_frequent : Rank → Rank → ℕ → Bool
less_frequent r other now =
    if r.lfu_info.acc == 0
    then true
    else (if other.lfu_info.acc == 0
        then false
        else ltb (inverse_frequency now other.lfu_info) (inverse_frequency now r.lfu_info))

-- both ranks valid, or neither
shared_less : Rank → Rank → ℕ → Bool
unfolding less_frequent
shared_less r other now =
    if r.sharers == 0 && ltb 0 other.sharers
    then true
    else (if ltb 0 r.sharers && other.sharers == 0 then false else less_frequent r other now)

abbrev same_flag : Bool → Bool → Bool
same_flag true b = b
same_flag false b = not b

pub less_than : Rank → Rank → ℕ → Bool
unfolding shared_less
less_than r other now =
    if not r.valid && other.valid
    then true
    else (if same_flag r.valid other.valid then shared_less r other now else false)

pub init : ℕ → Lfu
init num_lines = record {
  timestamp = 1;
  best_candidate = none;
  array = λ id. record { ts = 0; acc = 0 };
  num_lines = num_lines;
  best_rank = no_rank;
}

pub update : Lfu → ℕ → MemReq → Lfu
update p id req =
    let l = p.array id in
    record p {
      array = write p.array id (record {
        ts = add64 (l.acc * l.ts % u64_mod) p.timestamp / add64 l.acc 1;
        acc = add64 l.acc 1;
      });
      timestamp = add64 p.timestamp 1000;
    }

abbrev is_none : Option ℕ → Bool
is_none none = true
is_none (some id) = false

module _ (ctrl : Lines) where
  pub rank_of : Lfu → ℕ → Rank
  rank_of p id = record {
    lfu_info = p.array id;
    sharers = ctrl.num_sharers id;
    valid = ctrl.is_valid id;
  }

  pub record_candidate : Lfu → ℕ → Lfu
  record_candidate p id =
      let r = rank_of p id in
      if is_none p.best_candidate || less_than r p.best_rank p.timestamp
      then record p { best_rank = r; best_candidate = some id }
      else p

  pub record_all : Lfu → List ℕ → Lfu
  record_all p [] = p
  record_all p (c ∷ cs) = record_all (record_candidate p c) cs

  abbrev with_state : Lfu → Option ℕ → Option (ℕ × Lfu)
  with_state p none = none
  with_state p (some best) = some (best, p)

  pub rank : Lfu → MemReq → List ℕ → Option (ℕ × Lfu)
  rank p req cands = let q = record_all p cands in with_state q q.best_candidate

pub replaced : Lfu → ℕ → Lfu
replaced p id = record p {
  best_candidate = none;
  best_rank = no_rank;
  array = write p.array id (record (p.array id) { acc = 0 });
}
