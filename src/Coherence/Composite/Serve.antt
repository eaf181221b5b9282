-- ===== src/Coherence/Composite/Serve.antt =====
-- zsim/src/coherence_ctrls.h, MESICC::processAccess: what a child asks for where the cache has the
-- permission.
use csce614_group_project.Base.{ℕ, ◌≡◌, true, false, Option, some, write}
use csce614_group_project.Hierarchy.{AccessType, MesiState, MemReq, is_owner}
use csce614_group_project.Coherence.Bottom.{Bottom}
use csce614_group_project.Coherence.Bottom
use csce614_group_project.Coherence.Top.{Entry, Children, Call, Grant}
use csce614_group_project.Coherence.Top
use csce614_group_project.Coherence.Top.Directory.{invalidate_child, IsCoherent}
use csce614_group_project.Coherence.Top.Coherent.{Granted}
use csce614_group_project.Coherence.Composite.{Composite, Answer, process_access}
use csce614_group_project.Coherence.Composite.Inval.{Covers}

module _ (k : Children) (lat : ℕ) (a : Call) (d : Entry) (states : ℕ → MesiState) (st : MesiState)
    (v : IsCoherent k.num_children d states) (cov : Covers st states)
    (g : Grant (ℕ → MesiState)) where
  -- what the answer tells of the line's own state, where the child's request leaves it at `st`
  abbrev BackedAt : MesiState → Type 0
  BackedAt st' =
      (g.reply.writeback ≡ true → is_owner st' ≡ true)
      × (Top.is_exclusive g.reply.entry ≡ true → is_owner st' ≡ true)

  abbrev Run : AccessType → Type 0
  Run type =
      Top.process_access k (invalidate_child lat) type a (states a.child_id) d false states ≡ some g

module _ (k : Children) (lat : ℕ) (c : Composite) (id : ℕ) (states : ℕ → MesiState)
    (v : IsCoherent k.num_children (c.directory id) states) where
  -- an access that is answered
  abbrev pub Answers : MemReq → AccessType → Option (Answer (ℕ → MesiState)) → Type 0
  Answers req type run =
      (ans : Answer (ℕ → MesiState)) × (run ≡ some ans)
      × Granted type ans.child_state
      × IsCoherent k.num_children (ans.reply.cc.directory id)
          (write ans.reply.world req.child_id ans.child_state)
      × Covers (ans.reply.cc.bcc.array id) (write ans.reply.world req.child_id ans.child_state)
