-- ===== src/Repl/Ship.antt =====
-- zsim/src/ship_repl.h, class SHiPReplPolicy. `std::hash` of the decimal text of the program
-- counter is the library's: the parameter `hash`.
use csce614_group_project.Base.{
  ℕ, ◌+◌, ◌-◌, ◌%◌, Bool, true, false, not, Option, none, some, List, Array, write, u8_mod, ltb,
  ◌==◌, if◌then◌else◌,
}
use csce614_group_project.Hierarchy.{MemReq}
use csce614_group_project.Repl.Aging.{search}
use csce614_group_project.Repl.Policy.{Policy}
pub mod Laws
pub mod Training
mod Tests

pub record ReplData : Type 0 where
  pub is_rereferenced : Bool
  pub rrpv : ℕ
  pub signature : ℕ

pub record Ship : Type 0 where
  pub shct : Array ℕ
  pub repl_data : Array ReplData

-- enum RRPV
abbrev pub rrpv_min : ℕ
rrpv_min = 0

abbrev pub rrpv_mid : ℕ
rrpv_mid = 2

abbrev pub rrpv_max : ℕ
rrpv_max = 3

abbrev pub sat_counter_max : ℕ
sat_counter_max = 255

-- the constructor; `gm_calloc` clears the counters and the lines
pub init : ℕ → Ship
init num_lines = record {
  shct = λ k. 0;
  repl_data = λ id. record {
    is_rereferenced = false;
    rrpv = (if ltb id num_lines then rrpv_max else 0);
    signature = 0;
  };
}

pub saturating_increment : Array ℕ → ℕ → ℕ → Array ℕ
saturating_increment shct k sat =
    if shct k == sat then shct else write shct k ((shct k + 1) % u8_mod)

pub saturating_decrement : Array ℕ → ℕ → Array ℕ
saturating_decrement shct k = if shct k == 0 then shct else write shct k (shct k - 1)

abbrev aged : ReplData → ReplData
aged d = record d { rrpv = (d.rrpv + 1) % u8_mod }

abbrev rrpv_of : ReplData → ℕ
rrpv_of d = d.rrpv

module _ (hash : ℕ → ℕ) where
  -- `hash & 0x3FFF`
  pub signature_of : MemReq → ℕ
  signature_of req = hash req.pc % 16384

  pub update : Ship → ℕ → MemReq → Ship
  unfolding signature_of saturating_increment
  update p id req =
      let k = signature_of req in
      let d = p.repl_data id in
      record {
        shct = saturating_increment p.shct k sat_counter_max;
        repl_data = write p.repl_data id (record {
          is_rereferenced = true;
          rrpv = (if d.rrpv == rrpv_max then rrpv_mid else rrpv_min);
          signature = k;
        });
      }

  -- what `rank` does once the victim is found
  pub train_victim : Ship → MemReq → ℕ → Array ReplData → ℕ × Ship
  unfolding signature_of saturating_decrement
  train_victim p req best lines =
      let d = lines best in
      (
        best,
        record {
          shct = (if d.is_rereferenced then p.shct else saturating_decrement p.shct d.signature);
          repl_data = write lines best (record d { signature = signature_of req });
        },
      )

  finish_rank : Ship → MemReq → Option (ℕ × Array ReplData) → Option (ℕ × Ship)
  unfolding train_victim
  finish_rank p req none = none
  finish_rank p req (some (best, lines)) = some (train_victim p req best lines)

  -- Four rounds are all that values up to RRPV::MAX need.
  pub rank : Ship → MemReq → List ℕ → Option (ℕ × Ship)
  unfolding finish_rank search
  rank p req cands = finish_rank p req (search rrpv_of aged 4 rrpv_max p.repl_data cands)

pub replaced : Ship → ℕ → Ship
replaced p id =
    let d = p.repl_data id in
    record p {
      repl_data = write p.repl_data id (record d {
        is_rereferenced = false;
        rrpv = (if p.shct d.signature == 0 then rrpv_max else rrpv_mid);
      });
    }

-- what `postinsert` makes of the line: `replaced`, then `update`
pub refill : (ℕ → ℕ) → Ship → ℕ → MemReq → Ship
unfolding update replaced
refill hash p id req = update hash (replaced p id) id req

abbrev pub policy : (ℕ → ℕ) → Policy
policy hash = record {
  State = Ship;
  update = λ p id req. some (update hash p id req);
  replaced = replaced;
  rank = rank hash;
}
