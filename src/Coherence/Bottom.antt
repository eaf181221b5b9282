-- ===== src/Coherence/Bottom.antt =====
-- class MESIBottomCC: the coherence states of a cache's lines, with respect to its parents.
-- The parents are the argument `access`: the call of `parents[p]->access(req)`, which may change
-- this cache's states (the request points to one of them) and the rest of the world `W`.
-- `none` is a failed assertion or a panic. The controller's lock is not modelled: each call here
-- is one that the lock makes atomic.
use Prim.Native.Nat.{bit_xor}
use csce614_group_project.Base.{
  ℕ, ◌+◌, ◌/◌, ◌%◌, Bool, true, false, not, ◌&&◌, ◌||◌, Option, none, some, Array, write, leb,
  ◌>>=◌, ◌>>◌, require, sub64, add64, add32, u32_mod,
}
use csce614_group_project.Hierarchy.{
  AccessType, gets, getx, puts, putx, InvType, inv, invx, fwd, MesiState, i, s, e, m, MemReq, is_i,
  is_s, is_owner, is_m, nonincl_wb, set_flag,
}
pub mod Line
pub mod Local

-- the profiling counters
pub record Profile : Type 0 where
  pub gets_hit : ℕ
  pub gets_miss : ℕ
  pub getx_hit : ℕ
  pub getx_miss_im : ℕ
  pub getx_miss_sm : ℕ
  pub puts_count : ℕ
  pub putx_count : ℕ
  pub inv_count : ℕ
  pub invx_count : ℕ
  pub fwd_count : ℕ
  pub next_level_lat : ℕ
  pub net_lat : ℕ

pub record Bottom : Type 0 where
  pub array : Array MesiState
  pub num_parents : ℕ
  pub parent_rtts : ℕ → ℕ
  pub num_lines : ℕ
  pub self_id : ℕ
  pub nonincl_hack : Bool
  pub prof : Profile

abbrev pub no_profile : Profile
no_profile = record {
  gets_hit = 0;
  gets_miss = 0;
  getx_hit = 0;
  getx_miss_im = 0;
  getx_miss_sm = 0;
  puts_count = 0;
  putx_count = 0;
  inv_count = 0;
  invx_count = 0;
  fwd_count = 0;
  next_level_lat = 0;
  net_lat = 0;
}

-- the constructor and `init`; `rtts` are the round trips that the network gives, or 0
pub init : ℕ → ℕ → Bool → ℕ → (ℕ → ℕ) → Bottom
init num_lines self_id nonincl_hack num_parents rtts = record {
  array = λ id. i;
  num_parents = num_parents;
  parent_rtts = rtts;
  num_lines = num_lines;
  self_id = self_id;
  nonincl_hack = nonincl_hack;
  prof = no_profile;
}

unfoldable pub is_exclusive : Bottom → ℕ → Bool
is_exclusive b id = is_owner (b.array id)

unfoldable pub is_valid : Bottom → ℕ → Bool
is_valid b id = not (is_i (b.array id))

-- the four 16-bit parts of the address, joined by exclusive or
pub get_parent_id : Bottom → ℕ → ℕ
get_parent_id b line_addr =
    bit_xor
      (bit_xor (bit_xor (line_addr % 65536) (line_addr / 65536 % 65536))
        (line_addr / 4294967296 % 65536))
      (line_addr / 281474976710656 % 65536)
    % b.num_parents

pub record Reply (W : Type 0) : Type 0 where
  pub cycle : ℕ
  pub bottom : Bottom
  pub world : W

-- The call of a parent: its response cycle, this controller's states, and the world after it.
abbrev pub Access : Type 0 → Type 0
Access W = ℕ → MemReq → ℕ → Array MesiState → W → Option (ℕ × Array MesiState × W)

abbrev pub request : Bottom → AccessType → ℕ → ℕ → ℕ → ℕ → ℕ → ℕ → MemReq
request b type line_addr line_id cycle src_id flags pc = record {
  line_addr = line_addr;
  type = type;
  child_id = b.self_id;
  cycle = cycle;
  initial_state = b.array line_id;
  src_id = src_id;
  flags = flags;
  pc = pc;
}

set_state : Bottom → ℕ → MesiState → Bottom
set_state b id st = record b { array = write b.array id st }

module _ {W : Type 0} (access : Access W) where
  -- the writeback of an eviction, and the check of the final state
  put : Bottom → AccessType → ℕ → ℕ → ℕ → ℕ → ℕ → W → Option (Reply W)
  put b type wb_addr id cycle src_id pc w = do
    (resp, array, w') ←
        access (get_parent_id b wb_addr) (request b type wb_addr id cycle src_id 0 pc) id b.array w
    require (is_i (array id))
    some (record { cycle = resp; bottom = record b { array = array }; world = w' })

  evict_in : MesiState → Bottom → ℕ → ℕ → ℕ → ℕ → ℕ → W → Option (Reply W)
  unfolding put
  evict_in i b wb_addr id cycle src_id pc w = some (record { cycle = cycle; bottom = b; world = w })
  evict_in s b wb_addr id cycle src_id pc w = put b puts wb_addr id cycle src_id pc w
  evict_in e b wb_addr id cycle src_id pc w = put b puts wb_addr id cycle src_id pc w
  evict_in m b wb_addr id cycle src_id pc w = put b putx wb_addr id cycle src_id pc w

  pub process_eviction : Bottom → ℕ → ℕ → Bool → ℕ → ℕ → ℕ → W → Option (Reply W)
  unfolding evict_in set_state
  process_eviction b wb_addr id false cycle src_id pc w =
      evict_in (b.array id) b wb_addr id cycle src_id pc w
  process_eviction b wb_addr id true cycle src_id pc w = do
    require (is_owner (b.array id))
    evict_in m (set_state b id m) wb_addr id cycle src_id pc w

  -- a miss: fetch or upgrade from the parent
  fetch : Bottom → AccessType → ℕ → ℕ → ℕ → ℕ → ℕ → ℕ → W → Option (Reply W)
  fetch b type line_addr id cycle src_id flags pc w = do
    let parent = get_parent_id b line_addr
    (resp, array, w') ←
        access parent (request b type line_addr id cycle src_id flags pc) id b.array w
    let next_lat = sub64 resp cycle % u32_mod
    let net = b.parent_rtts parent
    some (record {
      cycle = add64 cycle (add32 next_lat net);
      bottom = record b {
        array = array;
        prof = record (b.prof) {
          next_level_lat = b.prof.next_level_lat + next_lat;
          net_lat = b.prof.net_lat + net;
        };
      };
      world = w';
    })

  hit_at : Bottom → ℕ → W → Option (Reply W)
  hit_at b cycle w = some (record { cycle = cycle; bottom = b; world = w })

  gets_in : MesiState → Bottom → ℕ → ℕ → ℕ → ℕ → ℕ → ℕ → W → Option (Reply W)
  unfolding fetch hit_at
  gets_in i b line_addr id cycle src_id flags pc w = do
    r ← fetch b gets line_addr id cycle src_id flags pc w
    let b' = r.bottom
    require (is_s (b'.array id) || (is_owner (b'.array id) && not (is_m (b'.array id))))
    some (record r {
      bottom = record b' { prof = record (b'.prof) { gets_miss = b'.prof.gets_miss + 1 } };
    })
  gets_in _ b line_addr id cycle src_id flags pc w =
      hit_at (record b { prof = record (b.prof) { gets_hit = b.prof.gets_hit + 1 } }) cycle w

  getx_in : MesiState → Bottom → ℕ → ℕ → ℕ → ℕ → ℕ → ℕ → W → Option (Reply W)
  unfolding fetch hit_at set_state
  getx_in i b line_addr id cycle src_id flags pc w =
      fetch (record b { prof = record (b.prof) { getx_miss_im = b.prof.getx_miss_im + 1 } }) getx
        line_addr id cycle src_id flags pc w
  getx_in s b line_addr id cycle src_id flags pc w =
      fetch (record b { prof = record (b.prof) { getx_miss_sm = b.prof.getx_miss_sm + 1 } }) getx
        line_addr id cycle src_id flags pc w
  getx_in e b line_addr id cycle src_id flags pc w =
      hit_at
        (record (set_state b id m) { prof = record (b.prof) { getx_hit = b.prof.getx_hit + 1 } })
        cycle w
  getx_in m b line_addr id cycle src_id flags pc w =
      hit_at (record b { prof = record (b.prof) { getx_hit = b.prof.getx_hit + 1 } }) cycle w

  -- `assert_msg(respCycle >= cycle)`
  not_before : ℕ → Reply W → Option (Reply W)
  not_before cycle r = do require (leb cycle r.cycle); some r

  pub process_access : Bottom → ℕ → ℕ → AccessType → ℕ → ℕ → ℕ → ℕ → W → Option (Reply W)
  unfolding gets_in getx_in hit_at not_before set_state
  process_access b line_addr id puts cycle src_id flags pc w = do
    require (not (is_i (b.array id)))
    hit_at (record b { prof = record (b.prof) { puts_count = b.prof.puts_count + 1 } }) cycle w
  process_access b line_addr id putx cycle src_id flags pc w = do
    require (is_owner (b.array id))
    hit_at
        (record (set_state b id m) {
          prof = record (b.prof) { putx_count = b.prof.putx_count + 1 };
        })
        cycle w
  process_access b line_addr id gets cycle src_id flags pc w = do
    r ← gets_in (b.array id) b line_addr id cycle src_id flags pc w
    not_before cycle r
  process_access b line_addr id getx cycle src_id flags pc w = do
    r ← getx_in (b.array id) b line_addr id cycle src_id flags pc w
    let b' = r.bottom
    require (is_m (b'.array id))
    not_before cycle r

  -- The request points to the child's state, which stands here in the place past the last line.
  pub process_noninclusive_writeback :
      Bottom → ℕ → AccessType → ℕ → MesiState → ℕ → ℕ → ℕ → W → Option (MesiState × Reply W)
  process_noninclusive_writeback b line_addr type cycle child_state src_id flags pc w = do
    require b.nonincl_hack
    let id = b.num_lines
    let b' = set_state b id child_state
    (resp, array, w') ←
        access (get_parent_id b line_addr)
          (request b' type line_addr id cycle src_id (set_flag flags nonincl_wb) pc) id b'.array w
    some (array id, record { cycle = resp; bottom = record b { array = array }; world = w' })

pub process_writeback_on_access : Bottom → ℕ → Option Bottom
unfolding set_state
process_writeback_on_access b id = do require (is_owner (b.array id)); some (set_state b id m)

-- The flag of the result is the write to `*reqWriteback`.
unfoldable pub inval_line : InvType → MesiState → Option (Bool × MesiState)
inval_line invx i = none
inval_line invx s = none
inval_line invx e = some (false, s)
inval_line invx m = some (true, s)
inval_line inv i = none
inval_line inv s = some (false, i)
inval_line inv e = some (false, i)
inval_line inv m = some (true, i)
inval_line fwd i = none
inval_line fwd s = some (false, s)
inval_line fwd e = none
inval_line fwd m = none

count_inval : InvType → Profile → Profile
count_inval invx p = record p { invx_count = p.invx_count + 1 }
count_inval inv p = record p { inv_count = p.inv_count + 1 }
count_inval fwd p = record p { fwd_count = p.fwd_count + 1 }

pub process_inval : Bottom → ℕ → InvType → Option (Bool × Bottom)
unfolding inval_line count_inval set_state
process_inval b id type = do
  (writeback, st) ← inval_line type (b.array id)
  some (writeback, record (set_state b id st) { prof = count_inval type b.prof })
