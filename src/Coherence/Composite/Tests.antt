-- ===== src/Coherence/Composite/Tests.antt =====
-- A cache of two children that holds a line in E, which no child has yet.
use csce614_group_project.Base.{ℕ, ◌≡◌, ◌≢◌, refl, Bool, false, none, some, Array, arith}
use csce614_group_project.Hierarchy.{gets, MesiState, MemReq, InvReq, InvType}
use csce614_group_project.Coherence.Bottom.{Bottom, Access}
use csce614_group_project.Coherence.Bottom
use csce614_group_project.Coherence.Top.{Entry, Children, clear}
use csce614_group_project.Coherence.Top.Directory.{invalidate_child, IsCoherent}
use csce614_group_project.Coherence.Top.Swmr.{start, start-True}
use csce614_group_project.Coherence.Composite.{Composite, Reply, process_inv}
use csce614_group_project.Coherence.Composite.Inval.{Covers, process_inv-Covers}

abbrev two : Children
two = record { num_children = 2; children_rtts = λ c. 0; nonincl_hack = false }

abbrev unheld : ℕ → MesiState
unheld c = MesiState.i

abbrev held : Composite
held = record {
  directory = λ id. clear;
  bcc = record (Bottom.init 4 0 false 1 (λ p. 0)) { array = λ id. MesiState.e };
}

-- no parent answers
abbrev no_parent : Access (Array Entry × (ℕ → MesiState))
no_parent parent req id array w = none

held-IsCoherent : IsCoherent 2 clear unheld
unfolding start
held-IsCoherent = start-True two (omega arith)

abbrev load : MemReq
load = record {
  line_addr = 5;
  type = gets;
  child_id = 1;
  cycle = 0;
  initial_state = MesiState.i;
  src_id = 0;
  flags = 0;
  pc = 0;
}

abbrev downgrade : InvReq
downgrade = record { line_addr = 5; type = InvType.invx; cycle = 7; src_id = 0 }

process_inv-Covers_example :
    (writeback : Bool) × (r : Reply (ℕ → MesiState)) × (process_inv no_parent two
        (invalidate_child 3)
        held
        downgrade
        2
        unheld
      ≡ some (writeback, r))
    × IsCoherent 2 (r.cc.directory 2) r.world
    × Covers (r.cc.bcc.array 2) r.world
    × ((j : ℕ) → j ≢ 2 → (r.cc.bcc.array j ≡ MesiState.e) × (r.cc.directory j ≡ clear))
process_inv-Covers_example =
    process_inv-Covers two 3 held 2 unheld held-IsCoherent no_parent downgrade refl
      (λ c. (λ p. cc, λ p. cc)) refl
