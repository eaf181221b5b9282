-- ===== src/Cache/Terminal/Hits.antt =====
-- zsim/src/cache.cpp: accesses that a terminal cache serves alone.
use csce614_group_project.Base.{
  ℕ, ◌+◌, ◌<◌, ◌≡◌, true, some, if◌then◌else◌, add64, leb, u64_mod, arith, ◌==◌, ==_refl,
}
use csce614_group_project.Hierarchy.{is_get, MemReq, code}
use csce614_group_project.Coherence.Bottom.{Bottom, Access}
use csce614_group_project.Coherence.Bottom.Local.{Suits, after, process_access-Stays}
use csce614_group_project.Coherence.Race.{check_for_mesi_race}
use csce614_group_project.Repl.Policy.{Policy}
use csce614_group_project.Cache.SetAssoc.{find}
use csce614_group_project.Cache.SetAssoc.Insertion.{lookup_hit}
use csce614_group_project.Cache.Terminal.{
  Cache, start_access, line_of, process_access, serve, finish_access, access_cache,
}

module _ {W : Type 0} (access : Access W) (hash : ℕ → ℕ → ℕ) (p : Policy) where
  -- A load or a store of a line that the cache holds with the permission that it needs, where the
  -- child's state did not change and the policy's update ends: the cache answers after its access
  -- latency, calls no parent, updates the policy once, and leaves the line's state as it is, or in M
  -- for a store.
  pub local_access :
      (c : Cache p.State) (req : MemReq) (w : W) (id : ℕ) (s : p.State)
      → is_get req.type ≡ true
      → find hash p c.tags req.line_addr ≡ some id
      → Suits req.type ((c.bcc).array id)
      → p.update (c.tags).rp id req ≡ some s
      → req.cycle + c.acc_lat < u64_mod
      → (b : Bottom) × (access_cache access hash p c req req.initial_state w
          ≡ some (record {
            cycle = req.cycle + c.acc_lat;
            cache = record c { bcc = b; tags = record (c.tags) { rp = s } };
            world = w;
          }))
        × ((j : ℕ)
            → b.array j ≡ (if j == id then after req.type ((c.bcc).array id) else (c.bcc).array j))
  unfolding access_cache start_access check_for_mesi_race serve line_of process_access finish_access
  local_access c req w id s get held suits updated fits =
      let (b, run, states) =
        process_access-Stays access c.bcc req.line_addr id (req.cycle + c.acc_lat) req.src_id
          req.flags req.pc w req.type suits in
      let sum : add64 req.cycle c.acc_lat ≡ req.cycle + c.acc_lat = omega arith in
      let late : leb req.cycle (req.cycle + c.acc_lat) ≡ true = ground arith in
      (
        b,
        simp (
          get,
          ==_refl (code req.initial_state),
          sum,
          lookup_hit hash p c.tags req.line_addr req id s held updated,
          run,
          late,
        ),
        states,
      )
