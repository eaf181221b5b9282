-- ===== src/Hierarchy.antt =====
-- zsim/src/memory_hierarchy.h: requests, invalidations and coherence states.
-- The pointer to the requester's coherence state and its lock are not part of the request here:
-- a function that writes through them takes and returns the state.
use csce614_group_project.Base.{ℕ, Bool, true, false, ◌==◌, ◌+◌, ◌-◌, ◌/◌, ◌%◌, if◌then◌else◌}

pub data AccessType : Type 0 where
  gets getx puts putx : AccessType

pub data InvType : Type 0 where
  inv invx fwd : InvType

pub data MesiState : Type 0 where
  i s e m : MesiState

unfoldable pub is_get : AccessType → Bool
is_get gets = true
is_get getx = true
is_get puts = false
is_get putx = false

unfoldable pub is_put : AccessType → Bool
is_put gets = false
is_put getx = false
is_put puts = true
is_put putx = true

-- `flags & f` and `flags & ~f` at a flag `f = 1 << k`
abbrev pub noexcl : ℕ
noexcl = 4

abbrev pub nonincl_wb : ℕ
nonincl_wb = 8

abbrev pub putx_keepexcl : ℕ
putx_keepexcl = 16

abbrev pub prefetch : ℕ
prefetch = 32

unfoldable pub has_flag : ℕ → ℕ → Bool
has_flag flags f = flags / f % 2 == 1

unfoldable pub clear_flag : ℕ → ℕ → ℕ
clear_flag flags f = if flags / f % 2 == 1 then flags - f else flags

unfoldable pub set_flag : ℕ → ℕ → ℕ
set_flag flags f = if flags / f % 2 == 1 then flags else flags + f

pub record MemReq : Type 0 where
  pub line_addr : ℕ
  pub type : AccessType
  pub child_id : ℕ
  pub cycle : ℕ
  pub initial_state : MesiState
  pub src_id : ℕ
  pub flags : ℕ
  pub pc : ℕ

pub record InvReq : Type 0 where
  pub line_addr : ℕ
  pub type : InvType
  pub cycle : ℕ
  pub src_id : ℕ

abbrev pub is_i : MesiState → Bool
is_i i = true
is_i s = false
is_i e = false
is_i m = false

abbrev pub is_s : MesiState → Bool
is_s i = false
is_s s = true
is_s e = false
is_s m = false

-- E or M
abbrev pub is_owner : MesiState → Bool
is_owner i = false
is_owner s = false
is_owner e = true
is_owner m = true

abbrev pub is_m : MesiState → Bool
is_m i = false
is_m s = false
is_m e = false
is_m m = true

pub MesiState-discrete : Discrete MesiState
MesiState-discrete = hlevel

-- the number of the state in the enum
abbrev pub code : MesiState → ℕ
code i = 0
code s = 1
code e = 2
code m = 3
