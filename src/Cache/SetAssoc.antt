-- ===== src/Cache/SetAssoc.antt =====
-- zsim/src/cache_arrays.cpp, class SetAssocArray, over any replacement policy. The hash family is
-- the parameter `hash`. The constructor asserts that `numSets` is a power of two, so that
-- `& setMask` is a remainder; the line numbers of a set stay below `numLines`, a `uint32_t`.
use csce614_group_project.Base.{
  ℕ, zero, suc, ◌+◌, ◌*◌, ◌/◌, ◌%◌, Bool, true, false, Option, none, some, Array, write, range,
  ◌==◌, if◌then◌else◌, ◌>>=◌,
}
use csce614_group_project.Hierarchy.{MemReq}
use csce614_group_project.Repl.Policy.{Policy, insert}
pub mod Insertion
mod Tests

pub record SetAssocArray (S : Type 0) : Type 0 where
  pub array : Array ℕ
  pub rp : S
  pub num_lines : ℕ
  pub num_sets : ℕ
  pub assoc : ℕ

-- the constructor; `gm_calloc` clears the addresses
pub init : {S : Type 0} → ℕ → ℕ → S → SetAssocArray S
init num_lines assoc rp = record {
  array = λ id. 0;
  rp = rp;
  num_lines = num_lines;
  num_sets = num_lines / assoc;
  assoc = assoc;
}

-- the loop of `lookup`, `n` ways from `id` on
unfoldable pub find_from : ℕ → Array ℕ → ℕ → ℕ → Option ℕ
find_from zero array line_addr id = none
find_from (suc n) array line_addr id =
    if array id == line_addr then some id else find_from n array line_addr (suc id)

module _ (hash : ℕ → ℕ → ℕ) (p : Policy) where
  -- the first line of the address's set
  pub first : SetAssocArray p.State → ℕ → ℕ
  first g line_addr = hash 0 line_addr % g.num_sets * g.assoc

  -- the line that holds the address, if one does
  unfoldable pub find : SetAssocArray p.State → ℕ → Option ℕ
  unfolding first
  find g line_addr = find_from g.assoc g.array line_addr (first g line_addr)

  touch : SetAssocArray p.State → MemReq → Bool → ℕ → Option (Option ℕ × SetAssocArray p.State)
  touch g req false id = some (some id, g)
  touch g req true id = do rp ← p.update g.rp id req; some (some id, record g { rp = rp })

  found :
      SetAssocArray p.State → MemReq → Bool → Option ℕ → Option (Option ℕ × SetAssocArray p.State)
  unfolding touch
  found g req update none = some (none, g)
  found g req update (some id) = touch g req update id

  -- `none` in the place of the line number is -1
  pub lookup : SetAssocArray p.State → ℕ → MemReq → Bool → Option (Option ℕ × SetAssocArray p.State)
  unfolding find found
  lookup g line_addr req update = found g req update (find g line_addr)

  -- the candidate, and the address to write back
  pub preinsert : SetAssocArray p.State → ℕ → MemReq → Option (ℕ × ℕ × SetAssocArray p.State)
  unfolding first
  preinsert g line_addr req = do
    (candidate, rp) ← p.rank g.rp req (range (first g line_addr) g.assoc)
    some (candidate, g.array candidate, record g { rp = rp })

  pub postinsert : SetAssocArray p.State → ℕ → MemReq → ℕ → Option (SetAssocArray p.State)
  postinsert g line_addr req candidate = do
    rp ← insert p g.rp candidate req
    some (record g { array = write g.array candidate line_addr; rp = rp })
