-- ===== src/Repl/Samples.antt =====
-- Requests and candidates for the tests of the policies.
use csce614_group_project.Base.{ℕ, refl, List, [], ◌∷◌, All, arith}
use csce614_group_project.Hierarchy.{MemReq, AccessType, MesiState}
use csce614_group_project.Repl.Policy.{IsCands, IsEvent, Event, hit, miss}

-- a load of the line from the program counter
abbrev pub request : ℕ → ℕ → MemReq
request line pc = record {
  line_addr = line;
  type = AccessType.gets;
  child_id = 0;
  cycle = 100;
  initial_state = MesiState.i;
  src_id = 0;
  flags = 0;
  pc = pc;
}

abbrev pub two_lines : List ℕ
two_lines = 0 ∷ 1 ∷ []

pub two_lines-IsCands : IsCands two_lines
two_lines-IsCands = record {
  nonempty = λ e. cc;
  distinct = (refl, (refl, tt));
  ids = (omega arith, (omega arith, tt));
}

abbrev pub accesses : List Event
accesses =
    miss (request 64 400) two_lines ∷ hit 0 (request 64 404) ∷ miss (request 128 400) two_lines ∷ []

pub accesses-IsEvent : All IsEvent accesses
accesses-IsEvent = (two_lines-IsCands, (tt, (two_lines-IsCands, tt)))
