-- ===== src/Coherence/Bottom/Line.antt =====
-- What an invalidation does to the lines of a cache: zsim/src/coherence_ctrls.cpp,
-- MESIBottomCC::processInval.
use csce614_group_project.Base.{ℕ, ◌≡◌, refl, Bool, true, some, write}
use csce614_group_project.Hierarchy.{InvType, MesiState, is_owner}
use csce614_group_project.Coherence.Bottom.{
  Bottom, inval_line, process_inval, process_writeback_on_access, set_state,
}

-- The call writes the line's state and no other.
pub process_inval-line :
    (b : Bottom) (id : ℕ) (type : InvType) (dirty : Bool) (st : MesiState)
    → inval_line type (b.array id) ≡ some (dirty, st)
    → (b' : Bottom) × (process_inval b id type ≡ some (dirty, b'))
      × (b'.array ≡ write b.array id st)
unfolding process_inval set_state
process_inval-line b id type dirty st e = rw e (_, refl, refl)

-- Where the cache owns the line, a child's writeback leaves it in M.
pub process_writeback_on_access-line :
    (b : Bottom) (id : ℕ)
    → is_owner (b.array id) ≡ true
    → (b' : Bottom) × (process_writeback_on_access b id ≡ some b')
      × (b'.array ≡ write b.array id MesiState.m)
unfolding process_writeback_on_access set_state
process_writeback_on_access-line b id h = rw h (_, refl, refl)
