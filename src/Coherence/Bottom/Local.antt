-- ===== src/Coherence/Bottom/Local.antt =====
-- The accesses that a controller serves without its parent, as it holds the permission already.
use csce614_group_project.Base.{
  ℕ, ◌+◌, ◌≡◌, refl, true, false, Option, some, leb, ◌==◌, if◌then◌else◌, arith,
}
use csce614_group_project.Hierarchy.{
  AccessType, gets, getx, puts, putx, MesiState, is_i, is_owner, is_m,
}
use csce614_group_project.Coherence.Bottom.{
  Bottom, Access, Reply, process_access, gets_in, getx_in, hit_at, not_before, set_state,
}

-- The permission that the access needs.
abbrev pub Suits : AccessType → MesiState → Type 0
Suits gets st = is_i st ≡ false
Suits getx st = is_owner st ≡ true
Suits puts st = is_i st ≡ false
Suits putx st = is_owner st ≡ true

-- The state that it leaves.
abbrev pub after : AccessType → MesiState → MesiState
after gets st = st
after getx st = MesiState.m
after puts st = st
after putx st = MesiState.m

module _ {W : Type 0} (access : Access W) (b : Bottom) (line_addr id cycle src_id flags pc : ℕ)
    (w : W) where
  -- The call ends at once with the parent's world untouched, and only the line's own state changes.
  abbrev pub Stays : AccessType → Option (Reply W) → Type 0
  Stays type run =
      (b' : Bottom) × (run ≡ some (record { cycle = cycle; bottom = b'; world = w }))
      × ((j : ℕ) → b'.array j ≡ (if j == id then after type (b.array id) else b.array j))

  leb_self : leb cycle cycle ≡ true
  leb_self = ground arith

  gets_held :
      (st : MesiState)
      → is_i st ≡ false
      → Stays gets (gets_in access st b line_addr id cycle src_id flags pc w)
  unfolding gets_in hit_at
  gets_held MesiState.i h = cc
  gets_held MesiState.s h = (_, refl, λ j. ground arith)
  gets_held MesiState.e h = (_, refl, λ j. ground arith)
  gets_held MesiState.m h = (_, refl, λ j. ground arith)

  getx_owned :
      (st : MesiState)
      → b.array id ≡ st
      → is_owner st ≡ true
      → Stays getx (getx_in access st b line_addr id cycle src_id flags pc w)
  unfolding getx_in hit_at set_state
  getx_owned MesiState.i at h = cc
  getx_owned MesiState.s at h = cc
  getx_owned MesiState.e at h = (_, refl, λ j. ground arith)
  getx_owned MesiState.m at h = (_, refl, λ j. ground (arith, at))

  -- An access whose permission the line's state gives ends at the cycle it came, calls no parent, and
  -- leaves the state of the line as it is, or in M for a write; no other line changes.
  pub process_access-Stays :
      (type : AccessType)
      → Suits type (b.array id)
      → Stays type (process_access access b line_addr id type cycle src_id flags pc w)
  unfolding process_access hit_at not_before set_state
  process_access-Stays gets h =
      let (b', run, states) = gets_held (b.array id) h in (b', rw (run, leb_self), states)
  process_access-Stays getx h =
      let (b', run, states) = getx_owned (b.array id) refl h in
      let top : is_m (b'.array id) ≡ true = ground (arith, states id) in
      (b', rw (run, top, leb_self), states)
  process_access-Stays puts h = (
    record b { prof = record (b.prof) { puts_count = b.prof.puts_count + 1 } },
    rw h,
    λ j. ground arith,
  )
  process_access-Stays putx h = (
    record (set_state b id MesiState.m) {
      prof = record (b.prof) { putx_count = b.prof.putx_count + 1 };
    },
    rw h,
    λ j. ground arith,
  )
