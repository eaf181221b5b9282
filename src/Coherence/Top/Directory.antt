-- ===== src/Coherence/Top/Directory.antt =====
-- One line, its directory entry and its state in every child, where the children are terminal
-- caches: an invalidation of a child is the bottom controller's on that state.
use csce614_group_project.Base.{
  ℕ, zero, suc, ◌+◌, ◌≤◌, ◌<◌, ◌≡◌, Bool, true, false, not, ◌&&◌, some, Array, write, ◌>>=◌,
  u32_mod, add64,
}
use csce614_group_project.Hierarchy.{MesiState, i, is_i, is_owner}
use csce614_group_project.Coherence.Bottom.{inval_line}
use csce614_group_project.Coherence.Top.{Entry, is_exclusive, Invalidate}

-- `Cache::invalidate` of the child, which answers with the state and adds `lat` cycles
unfoldable pub invalidate_child : ℕ → Invalidate (ℕ → MesiState)
invalidate_child lat c req states = do
  (pulled, st) ← inval_line req.type (states c)
  some (add64 req.cycle lat, pulled, write states c st)

abbrev pub bit : Bool → ℕ
bit true = 1
bit false = 0

-- How many of the children from `c` on, `n` in all, are in the set.
unfoldable pub count : ℕ → ℕ → Array Bool → ℕ
count zero c sharers = 0
count (suc n) c sharers = bit (sharers c) + count n (suc c) sharers

-- The directory tells the truth about the children's states.
pub record IsCoherent (n : ℕ) (d : Entry) (states : ℕ → MesiState) : Type 0 where
  pub some_bound : n < u32_mod
  pub holders : (c : ℕ) → d.sharers c ≡ not (is_i (states c))
  pub outside : (c : ℕ) → n ≤ c → states c ≡ i
  pub counted : d.num_sharers ≡ count n 0 d.sharers
  pub one_owner : 2 ≤ d.num_sharers → d.exclusive ≡ false
  pub owners : (c : ℕ) → is_owner (states c) ≡ (d.sharers c && is_exclusive d)
