-- ===== src/Coherence/Race.antt =====
-- zsim/src/coherence_ctrls.h, CheckForMESIRace: what becomes of a request whose line was
-- invalidated or downgraded while the child's lock was open. `none` is a failed assertion or a panic.
use csce614_group_project.Base.{
  ℕ, Bool, true, false, Option, none, some, if◌then◌else◌, ◌>>=◌, ◌>>◌, require, ◌==◌, not,
}
use csce614_group_project.Hierarchy.{
  AccessType, gets, getx, puts, putx, MesiState, is_i, is_s, code,
}
pub mod Safe
mod Tests

-- the branch where `*state != initialState`: whether to skip the access, and its type
raced : AccessType → MesiState → MesiState → Option (Bool × AccessType)
raced puts state initial =
    if is_i state then some (true, puts) else (require (is_s state) >> some (false, puts))
raced putx state initial =
    if is_i state then some (true, putx) else (require (is_s state) >> some (false, puts))
raced getx state initial = do require (is_s initial); require (is_i state); some (false, getx)
raced gets state initial = none

unfoldable pub check_for_mesi_race : AccessType → MesiState → MesiState → Option (Bool × AccessType)
unfolding raced
check_for_mesi_race type state initial =
    if code state == code initial then some (false, type) else raced type state initial
