-- ===== src/Cache/Terminal.antt =====
-- A cache without children: zsim/src/cache.cpp, `Cache::access` and `Cache::finishInvalidate`, over
-- MESITerminalCC of zsim/src/coherence_ctrls.h and a set-associative array. The parents' calls change
-- the coherence states but not the tags: an invalidation only looks a line up. The timing records of
-- the contention model are left out. `none` is a failed assertion or a panic.
use csce614_group_project.Base.{
  ℕ, ◌+◌, Bool, true, false, Option, none, some, if◌then◌else◌, ◌>>=◌, ◌>>◌, require, add64, leb,
}
use csce614_group_project.Hierarchy.{
  AccessType, gets, getx, puts, putx, is_get, MesiState, MemReq, InvReq,
}
use csce614_group_project.Coherence.Bottom.{Bottom, Access, Reply}
use csce614_group_project.Coherence.Bottom
use csce614_group_project.Coherence.Race.{check_for_mesi_race}
use csce614_group_project.Repl.Policy.{Policy}
use csce614_group_project.Cache.SetAssoc.{SetAssocArray, lookup, preinsert, postinsert}
pub mod Hits
mod Tests

pub record Cache (S : Type 0) : Type 0 where
  pub bcc : Bottom
  pub tags : SetAssocArray S
  pub acc_lat : ℕ
  pub inv_lat : ℕ

-- a cycle, the cache and the world after a call
pub record Served (S W : Type 0) : Type 0 where
  pub cycle : ℕ
  pub cache : Cache S
  pub world : W

module _ {W : Type 0} (access : Access W) (hash : ℕ → ℕ → ℕ) (p : Policy) where
  -- `startAccess`: puts are refused, and races are checked; the type may change
  pub start_access : MemReq → MesiState → Option (Bool × AccessType)
  start_access req child_state = do
    require (is_get req.type)
    check_for_mesi_race req.type child_state req.initial_state

  -- the way of a line that is not in the array: a victim, its eviction, the new tag
  pub make_space : Cache p.State → MemReq → ℕ → W → Option (ℕ × Cache p.State × W)
  make_space c req cycle w = do
    (id, wb_addr, tags) ← preinsert hash p c.tags req.line_addr req
    r ← Bottom.process_eviction access c.bcc wb_addr id false cycle req.src_id req.pc w
    tags' ← postinsert hash p tags req.line_addr req id
    some (id, record c { bcc = r.bottom; tags = tags' }, r.world)

  pub line_of : Cache p.State → MemReq → ℕ → W → Option ℕ → Option (ℕ × Cache p.State × W)
  line_of c req cycle w (some id) = some (id, c, w)
  line_of c req cycle w none = make_space c req cycle w

  -- `processAccess`
  pub process_access : Cache p.State → MemReq → AccessType → ℕ → ℕ → W → Option (Served p.State W)
  process_access c req type id cycle w = do
    r ← Bottom.process_access access c.bcc req.line_addr id type cycle req.src_id req.flags req.pc w
    some (record { cycle = r.cycle; cache = record c { bcc = r.bottom }; world = r.world })

  -- the body of `access` where the access is not skipped
  pub serve : Cache p.State → MemReq → AccessType → W → Option (Served p.State W)
  serve c req type w = do
    let cycle = add64 req.cycle c.acc_lat
    (line, tags) ← lookup hash p c.tags req.line_addr req (is_get type)
    (id, c', w') ← line_of (record c { tags = tags }) req cycle w line
    process_access c' req type id cycle w'

  pub finish_access : MemReq → Served p.State W → Option (Served p.State W)
  finish_access req r = do require (leb req.cycle r.cycle); some r

  pub access_cache : Cache p.State → MemReq → MesiState → W → Option (Served p.State W)
  access_cache c req child_state w = do
    (skip, type) ← start_access req child_state
    let served = serve c req type w
    r ← (if skip then some (record { cycle = req.cycle; cache = c; world = w }) else served)
    finish_access req r

  -- `finishInvalidate`: the response cycle, whether to write back, and the cache
  pub finish_invalidate : Cache p.State → InvReq → MemReq → Option (ℕ × Bool × Cache p.State)
  finish_invalidate c req no_req = do
    (line, tags) ← lookup hash p c.tags req.line_addr no_req false
    id ← line
    (writeback, bcc) ← Bottom.process_inval c.bcc id req.type
    some (add64 req.cycle c.inv_lat, writeback, record c { bcc = bcc })
