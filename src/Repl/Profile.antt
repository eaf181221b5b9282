-- ===== src/Repl/Profile.antt =====
-- zsim/src/repl_policies.h, class ProfViolReplPolicy: a policy `p` with counters of the accesses and
-- evictions that are simulated out of order. `none` is a failed assertion, or a failure of `p`.
use csce614_group_project.Base.{
  ℕ, ◌+◌, max, min, Bool, true, false, Option, some, Array, write, ltb, if◌then◌else◌, ◌>>=◌, ◌>>◌,
  require,
}
use csce614_group_project.Hierarchy.{AccessType, gets, getx, puts, putx, MemReq, is_get}
use csce614_group_project.Repl.Policy.{Policy}

pub record AccTimes : Type 0 where
  pub read : ℕ
  pub write_time : ℕ

pub record Violations : Type 0 where
  pub raw : ℕ
  pub war : ℕ
  pub rar : ℕ
  pub waw : ℕ
  pub no_viol_acc : ℕ
  pub aae : ℕ
  pub no_viol_ev : ℕ

pub record Profiled (S : Type 0) : Type 0 where
  pub inner : S
  pub acc_times : Array AccTimes
  pub prof : Violations
  pub repl_cycle : ℕ

-- `init` over a policy's state
pub init : {S : Type 0} → S → Profiled S
init inner = record {
  inner = inner;
  acc_times = λ id. record { read = 0; write_time = 0 };
  prof = record { raw = 0; war = 0; rar = 0; waw = 0; no_viol_acc = 0; aae = 0; no_viol_ev = 0 };
  repl_cycle = 0;
}

-- whether an access out of order comes before a read
pub read_viol : AccTimes → ℕ → Bool
read_viol t cycle =
    if ltb cycle (min t.read t.write_time) then ltb t.read t.write_time else ltb cycle t.read

-- the counter of an access out of order, by whether it reads and whether a read comes after it
pub count_viol : Bool → Bool → Violations → Violations
count_viol true true v = record v { rar = v.rar + 1 }
count_viol true false v = record v { raw = v.raw + 1 }
count_viol false true v = record v { war = v.war + 1 }
count_viol false false v = record v { waw = v.waw + 1 }

pub count_access : AccTimes → ℕ → Bool → Violations → Violations
count_access t cycle read v =
    if ltb cycle (max t.read t.write_time)
    then count_viol read (read_viol t cycle) v
    else record v { no_viol_acc = v.no_viol_acc + 1 }

abbrev is_read : AccessType → Bool
is_read gets = true
is_read getx = false
is_read puts = false
is_read putx = false

pub note_time : AccTimes → ℕ → Bool → AccTimes
note_time t cycle true = record t { read = max t.read cycle }
note_time t cycle false = record t { write_time = max t.write_time cycle }

module _ (p : Policy) where
  -- the inner policy is updated before and after
  pub update : Profiled p.State → ℕ → MemReq → Option (Profiled p.State)
  update q id req = do
    inner ← p.update q.inner id req
    require (is_get req.type)
    let t = q.acc_times id
    let read = is_read req.type
    inner' ← p.update inner id req
    some (record q {
      inner = inner';
      acc_times = write q.acc_times id (note_time t req.cycle read);
      prof = count_access t req.cycle read q.prof;
    })

  pub replaced : Profiled p.State → ℕ → Profiled p.State
  replaced q id =
      let t = q.acc_times id in
      record q {
        inner = p.replaced q.inner id;
        prof =
            (if ltb q.repl_cycle (max t.read t.write_time)
              then record (q.prof) { aae = q.prof.aae + 1 }
              else record (q.prof) { no_viol_ev = q.prof.no_viol_ev + 1 });
        acc_times = write q.acc_times id (record { read = 0; write_time = 0 });
      }
