-- ===== src/Cache/Terminal/Tests.antt =====
-- A terminal cache of two lines with SRRIP that holds the line 77 in E; its parent refuses all calls.
use csce614_group_project.Base.{ℕ, ◌+◌, ◌≡◌, refl, false, none, some, if◌then◌else◌, ◌==◌, arith}
use csce614_group_project.Hierarchy.{AccessType, MesiState, MemReq, is_get}
use csce614_group_project.Coherence.Bottom.{Bottom, Access, no_profile}
use csce614_group_project.Repl.Srrip.{Srrip}
use csce614_group_project.Repl.Srrip
use csce614_group_project.Cache.SetAssoc.{find, find_from}
use csce614_group_project.Cache.Terminal.{Cache, access_cache}
use csce614_group_project.Cache.Terminal.Hits.{local_access}

abbrev refuses : Access ℕ
refuses parent req id states w = none

abbrev low_bits : ℕ → ℕ → ℕ
low_bits fn addr = addr

abbrev held : Cache Srrip
held = record {
  bcc = record {
    array = λ id. MesiState.e;
    num_parents = 1;
    parent_rtts = λ k. 0;
    num_lines = 2;
    self_id = 0;
    nonincl_hack = false;
    prof = no_profile;
  };
  tags = record {
    array = λ id. 77 + id;
    rp = Srrip.init 2 3;
    num_lines = 2;
    num_sets = 1;
    assoc = 2;
  };
  acc_lat = 4;
  inv_lat = 2;
}

abbrev write_77 : MemReq
write_77 = record {
  line_addr = 77;
  type = AccessType.getx;
  child_id = 0;
  cycle = 100;
  initial_state = MesiState.i;
  src_id = 0;
  flags = 0;
  pc = 400;
}

local_access_example :
    (b : Bottom) × (access_cache refuses low_bits Srrip.policy held write_77 MesiState.i 7
      ≡ some (record {
        cycle = 104;
        cache = record held {
          bcc = b;
          tags = record (held.tags) { rp = Srrip.update (Srrip.init 2 3) 0 write_77 };
        };
        world = 7;
      }))
    × ((j : ℕ) → b.array j ≡ (if j == 0 then MesiState.m else MesiState.e))
unfolding find find_from is_get
local_access_example =
    local_access refuses low_bits Srrip.policy held write_77 7 0
      (Srrip.update (Srrip.init 2 3) 0 write_77) refl refl refl refl (omega arith)
