-- ===== src/Repl/WayPart.antt =====
-- zsim/src/part_repl_policies.h, class WayPartReplPolicy: each way belongs to a partition, and a line
-- comes in at a way of its own. The partition of a request (`mapper`) and the monitor's `access` are
-- parameters; line numbers are below 2^31, as `best_id` is an `int32_t`. `none` as `best_id` is -1;
-- `none` as a result is a failed assertion.
use csce614_group_project.Base.{
  ℕ, zero, suc, ◌+◌, ◌*◌, ◌/◌, Bool, true, false, not, ◌&&◌, ◌||◌, Option, none, some, List, [],
  ◌∷◌, Array, write, add32, mul32, add64, sub64, ltb, ◌==◌, if◌then◌else◌, ◌>>=◌, ◌>>◌, require,
}
use csce614_group_project.Hierarchy.{MemReq}
pub mod Accounts
pub mod Sizes
pub mod Victim
mod Tests

pub record PartInfo : Type 0 where
  pub size : ℕ
  pub target_size : ℕ
  pub prof_hits : ℕ
  pub prof_misses : ℕ
  pub prof_self_evictions : ℕ
  pub prof_ext_evictions : ℕ

pub record WayPartInfo : Type 0 where
  pub addr : ℕ
  pub ts : ℕ
  pub p : ℕ

-- `M` is the state of the monitor.
pub record WayPart (M : Type 0) : Type 0 where
  pub part_info : Array PartInfo
  pub partitions : ℕ
  pub total_size : ℕ
  pub way_size : ℕ
  pub ways : ℕ
  pub array : Array WayPartInfo
  pub way_part_index : Array ℕ
  pub test_mode : Bool
  pub best_id : Option ℕ
  pub cand_idx : ℕ
  pub incoming_line_part : ℕ
  pub incoming_line_addr : ℕ
  pub timestamp : ℕ
  pub monitor : M

abbrev no_part : PartInfo
no_part = record {
  size = 0;
  target_size = 0;
  prof_hits = 0;
  prof_misses = 0;
  prof_self_evictions = 0;
  prof_ext_evictions = 0;
}

abbrev pub is_none : Option ℕ → Bool
is_none none = true
is_none (some id) = false

-- a hit on a line of the partition
pub count_hit : Array PartInfo → ℕ → Array PartInfo
count_hit infos p =
    let info = infos p in write infos p (record info { prof_hits = add64 info.prof_hits 1 })

-- the line leaves its partition for the incoming one
pub transfer : Array PartInfo → ℕ → ℕ → Array PartInfo
transfer infos old_part new_part =
    let old = infos old_part in
    let infos' = write infos old_part (record old {
      size = sub64 old.size 1;
      prof_ext_evictions = add64 old.prof_ext_evictions 1;
    }) in
    let new = infos' new_part in write infos' new_part (record new { size = add64 new.size 1 })

pub keep_part : Array PartInfo → ℕ → Array PartInfo
keep_part infos p =
    let info = infos p in
    write infos p (record info { prof_self_evictions = add64 info.prof_self_evictions 1 })

pub count_miss : Array PartInfo → ℕ → Array PartInfo
count_miss infos p =
    let info = infos p in write infos p (record info { prof_misses = add64 info.prof_misses 1 })

-- `n` ways from `cur_way` on go to the partition
pub give_ways : ℕ → ℕ → ℕ → Array ℕ → Array ℕ
give_ways zero p cur_way index = index
give_ways (suc n) p cur_way index = give_ways n p (suc cur_way) (write index cur_way p)

module _ {M : Type 0} where
  -- the initial assignment of the ways, `n` of them from `w` on
  pub assign_ways : ℕ → ℕ → WayPart M → WayPart M
  assign_ways zero w r = r
  assign_ways (suc n) w r =
      let p = mul32 w r.partitions / r.ways in
      let info = r.part_info p in
      assign_ways n (suc w) (record r {
        way_part_index = write r.way_part_index w p;
        part_info =
            write r.part_info p (record info { target_size = add64 info.target_size r.way_size });
      })

  -- the constructor; the fields of the incoming line are what the memory holds
  pub init : ℕ → ℕ → ℕ → Bool → ℕ → ℕ → M → Option (WayPart M)
  init partitions lines ways test_mode line_part line_addr monitor = do
    require (mul32 (lines / ways) ways == lines)
    some (
        assign_ways ways 0 (record {
          part_info = write (λ i. no_part) 0 (record no_part { size = lines });
          partitions = partitions;
          total_size = lines;
          way_size = lines / ways;
          ways = ways;
          array = λ id. record { addr = 0; ts = 0; p = 0 };
          way_part_index = λ w. 0;
          test_mode = test_mode;
          best_id = none;
          cand_idx = 0;
          incoming_line_part = line_part;
          incoming_line_addr = line_addr;
          timestamp = 1;
          monitor = monitor;
        }))

  -- the accounts after a use of a line
  pub account : WayPart M → ℕ → Array PartInfo
  account r id =
      let e = r.array id in
      let new_part = r.incoming_line_part in
      if ltb 0 e.ts
      then count_hit r.part_info e.p
      else count_miss
          (if e.p == new_part then keep_part r.part_info e.p else transfer r.part_info e.p new_part)
          new_part

  pub update : (M → ℕ → ℕ → M) → WayPart M → ℕ → WayPart M
  update access r id =
      let e = r.array id in
      let p = (if ltb 0 e.ts then e.p else r.incoming_line_part) in
      record r {
        part_info = account r id;
        array = write r.array id (record e { p = p; ts = r.timestamp });
        timestamp = add64 r.timestamp 1;
        monitor = access r.monitor p e.addr;
      }

  pub start_replacement : (MemReq → ℕ) → WayPart M → MemReq → Option (WayPart M)
  start_replacement get_partition r req = do
    require (r.cand_idx == 0)
    require (is_none r.best_id)
    some (record r { incoming_line_part = get_partition req; incoming_line_addr = req.line_addr })

  -- whether a candidate takes the place of the best one so far
  pub beats : WayPart M → WayPartInfo → WayPartInfo → Bool
  beats r c best =
      let own_c = c.p == r.incoming_line_part in
      let own_best = best.p == r.incoming_line_part in
      if r.test_mode || own_c && own_best
      then ltb c.ts best.ts
      else (if own_c && not own_best
          then false
          else (if not own_c && own_best then true else ltb c.ts best.ts))

  pub better : WayPart M → ℕ → Option ℕ → ℕ
  better r id none = id
  better r id (some best) = if beats r (r.array id) (r.array best) then id else best

  pub record_candidate : WayPart M → ℕ → Option (WayPart M)
  record_candidate r id = do
    require (ltb r.cand_idx r.ways)
    some (record r {
      cand_idx = add32 r.cand_idx 1;
      best_id =
          (if r.test_mode || r.way_part_index r.cand_idx == r.incoming_line_part
            then some (better r id r.best_id)
            else r.best_id);
    })

  pub record_all : WayPart M → List ℕ → Option (WayPart M)
  record_all r [] = some r
  record_all r (id ∷ ids) = record_candidate r id >>= (λ r'. record_all r' ids)

  pub get_best_candidate : WayPart M → Option ℕ
  get_best_candidate r = r.best_id

  -- `rank` of LegacyReplPolicy
  pub rank : (MemReq → ℕ) → WayPart M → MemReq → List ℕ → Option (ℕ × WayPart M)
  rank get_partition r req cands = do
    r₁ ← start_replacement get_partition r req
    r₂ ← record_all r₁ cands
    best ← get_best_candidate r₂
    some (best, r₂)

  pub replaced : WayPart M → ℕ → WayPart M
  replaced r id = record r {
    cand_idx = 0;
    best_id = none;
    array = write r.array id (record (r.array id) { ts = 0; addr = r.incoming_line_addr });
  }

  -- `n` partitions from `p` on get their ways
  pub give_all : ℕ → ℕ → ℕ → Array ℕ → WayPart M → WayPart M × ℕ
  give_all zero p cur_way ways_part r = (r, cur_way)
  give_all (suc n) p cur_way ways_part r =
      let target = mul32 r.total_size (ways_part p) / r.ways in
      give_all n (suc p) (cur_way + ways_part p) ways_part (record r {
        part_info = write r.part_info p (record (r.part_info p) { target_size = target });
        way_part_index = give_ways (ways_part p) p cur_way r.way_part_index;
      })

  pub set_partition_sizes : WayPart M → Array ℕ → Option (WayPart M)
  set_partition_sizes r ways_part = do
    let (r', cur_way) = give_all r.partitions 0 0 ways_part r
    require (cur_way == r.ways)
    some r'
