-- ===== src/Coherence/Race/Tests.antt =====
-- A PUTX that meets a downgrade.
use csce614_group_project.Base.{◌≡◌, refl, Bool, some, [], ◌∷◌}
use csce614_group_project.Hierarchy.{AccessType, putx, MesiState, invx}
use csce614_group_project.Coherence.Bottom.{inval_line}
use csce614_group_project.Coherence.Race.{check_for_mesi_race}
use csce614_group_project.Coherence.Race.Safe.{interleave, Settles, check_for_mesi_race-Settles}

race_example :
    (r : Bool × AccessType) × (check_for_mesi_race putx MesiState.s MesiState.m ≡ some r)
    × Settles putx r MesiState.s
unfolding interleave inval_line
race_example = check_for_mesi_race-Settles putx MesiState.m MesiState.s (invx ∷ []) refl refl
