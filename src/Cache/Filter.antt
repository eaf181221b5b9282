-- ===== src/Cache/Filter.antt =====
-- zsim/src/filter_cache.h, class FilterCache: one entry for each set, read before the cache. The
-- calls of `Cache::access` and `Cache::finishInvalidate` are the arguments `access` and `finish`. The
-- lock of the filter is open during the first, which may change the entries.
use Prim.Native.Nat.{bit_or}
use csce614_group_project.Base.{
  ℕ, ◌+◌, ◌/◌, ◌%◌, ◌^◌, max, Bool, true, false, not, Option, none, some, Array, write, ltb, ◌==◌,
  if◌then◌else◌, ◌>>=◌,
}
use csce614_group_project.Hierarchy.{AccessType, gets, getx, MesiState, MemReq, InvReq}
pub mod Stale
mod Tests

pub record Entry : Type 0 where
  pub rd_addr : ℕ
  pub wr_addr : ℕ
  pub avail_cycle : ℕ

-- `FilterEntry::clear`
abbrev pub cleared : Entry
cleared = record { rd_addr = 0; wr_addr = 0; avail_cycle = 0 }

-- -1L
abbrev pub no_addr : ℕ
no_addr = 18446744073709551615

pub record Filter : Type 0 where
  pub filter_array : Array Entry
  pub num_sets : ℕ
  pub src_id : ℕ
  pub req_flags : ℕ
  pub fgets_hit : ℕ
  pub fgetx_hit : ℕ

-- the constructor; the number of sets is a power of two, so that `& setMask` is a remainder
pub init : ℕ → Filter
init num_sets = record {
  filter_array = λ idx. cleared;
  num_sets = num_sets;
  src_id = 4294967295;
  req_flags = 0;
  fgets_hit = 0;
  fgetx_hit = 0;
}

pub set_source_id : Filter → ℕ → Filter
set_source_id p id = record p { src_id = id }

pub set_flags : Filter → ℕ → Filter
set_flags p flags = record p { req_flags = flags }

pub context_switch : Filter → Filter
context_switch p = record p {
  filter_array = λ idx. if ltb idx p.num_sets then cleared else p.filter_array idx;
}

abbrev pub Access : Type 0 → Type 0
Access W = MemReq → Array Entry → W → Option (ℕ × Array Entry × W)

abbrev pub Finish : Type 0 → Type 0
Finish W = InvReq → W → Option (ℕ × W)

-- procMask of the process whose thread makes the call, and the width of an offset in a line. Each
-- method takes it anew: an invalidation may come from another process than the one that filled the
-- entry.
pub record Process : Type 0 where
  pub proc_mask : ℕ
  pub line_bits : ℕ

module _ {W : Type 0} (proc : Process) (access : Access W) (finish : Finish W) where
  pub request : Filter → ℕ → Bool → ℕ → ℕ → MemReq
  request p v_line is_load cur_cycle pc = record {
    line_addr = bit_or proc.proc_mask v_line;
    type = (if is_load then gets else getx);
    child_id = 0;
    cycle = cur_cycle;
    initial_state = MesiState.i;
    src_id = p.src_id;
    flags = p.req_flags;
    pc = pc;
  }

  -- the entry of the set after a fill
  pub refill : Entry → ℕ → Bool → ℕ → Entry
  refill old v_line is_load resp = record {
    rd_addr = v_line;
    wr_addr = (if is_load then no_addr else v_line);
    avail_cycle = (if old.rd_addr == v_line then old.avail_cycle else resp);
  }

  pub replace : Filter → ℕ → ℕ → Bool → ℕ → ℕ → W → Option (ℕ × Filter × W)
  replace p v_line idx is_load cur_cycle pc w = do
    (resp, entries, w') ← access (request p v_line is_load cur_cycle pc) p.filter_array w
    some (
      resp,
      record p { filter_array = write entries idx (refill (entries idx) v_line is_load resp) },
      w',
    )

  pub load : Filter → ℕ → ℕ → ℕ → W → Option (ℕ × Filter × W)
  load p v_addr cur_cycle pc w =
      let v_line = v_addr / 2 ^ proc.line_bits in
      let idx = v_line % p.num_sets in
      let miss = replace p v_line idx true cur_cycle pc w in
      if v_line == (p.filter_array idx).rd_addr
      then some (
        max cur_cycle (p.filter_array idx).avail_cycle,
        record p { fgets_hit = p.fgets_hit + 1 },
        w,
      )
      else miss

  pub store : Filter → ℕ → ℕ → ℕ → W → Option (ℕ × Filter × W)
  store p v_addr cur_cycle pc w =
      let v_line = v_addr / 2 ^ proc.line_bits in
      let idx = v_line % p.num_sets in
      let miss = replace p v_line idx false cur_cycle pc w in
      if v_line == (p.filter_array idx).wr_addr
      then some (
        max cur_cycle (p.filter_array idx).avail_cycle,
        record p { fgetx_hit = p.fgetx_hit + 1 },
        w,
      )
      else miss

  -- the entries after the test of `invalidate`
  pub drop_line : Filter → ℕ → Filter
  drop_line p line_addr =
      let idx = line_addr % p.num_sets in
      let entry = p.filter_array idx in
      if bit_or entry.rd_addr proc.proc_mask == line_addr
      then record p {
        filter_array =
            write p.filter_array idx (record entry { wr_addr = no_addr; rd_addr = no_addr });
      }
      else p

  pub invalidate : Filter → InvReq → W → Option (ℕ × Filter × W)
  invalidate p req w = do (resp, w') ← finish req w; some (resp, drop_line p req.line_addr, w')
