-- ===== src/Cache/Zcache.antt =====
-- zsim/src/cache_arrays.cpp, class ZArray: a line stays where it is, and a position maps to a line.
-- The hash family is the parameter `hash`; the number of sets is a power of two, so that `& setMask`
-- is a remainder. `none` is a failed assertion or a panic, or a walk of more than `fuel` rounds.
use csce614_group_project.Base.{
  ℕ, zero, suc, ◌+◌, ◌*◌, ◌/◌, ◌%◌, min, Bool, true, false, not, ◌&&◌, ◌||◌, Option, none, some,
  List, [], ◌∷◌, Array, write, range, map, ltb, leb, ◌==◌, if◌then◌else◌, ◌>>=◌, ◌>>◌, require,
}
use csce614_group_project.Hierarchy.{MemReq}
use csce614_group_project.Repl.Policy.{Policy, insert}
pub mod Swaps
mod Tests

-- ZWalkInfo; `none` as the parent is -1
pub record WalkInfo : Type 0 where
  pub pos : ℕ
  pub line_id : ℕ
  pub parent_idx : Option ℕ

pub record ZArray (S : Type 0) : Type 0 where
  pub array : Array ℕ
  pub lookup_array : Array ℕ
  pub rp : S
  pub num_lines : ℕ
  pub num_sets : ℕ
  pub ways : ℕ
  pub cands : ℕ
  -- swapArray up to swapArrayLen
  pub swap_array : List ℕ
  pub last_cand_idx : ℕ
  pub swaps : ℕ

-- the constructor after its assertions
pub init : {S : Type 0} → ℕ → ℕ → ℕ → S → Option (ZArray S)
init num_lines ways cands rp = do
  require (ltb 1 ways)
  require (leb ways cands)
  require (num_lines % ways == 0)
  some (record {
    array = λ id. 0;
    lookup_array = λ pos. pos;
    rp = rp;
    num_lines = num_lines;
    num_sets = num_lines / ways;
    ways = ways;
    cands = cands;
    swap_array = [];
    last_cand_idx = 0;
    swaps = 0;
  })

-- the candidates of the walk: `numCandidates`, `all_valid`
pub record Walk : Type 0 where
  pub candidates : Array WalkInfo
  pub num_candidates : ℕ
  pub all_valid : Bool

-- the least index of a candidate that is the line
pub min_idx : ℕ → Array WalkInfo → ℕ → ℕ → Option ℕ
min_idx zero candidates best i = none
min_idx (suc n) candidates best i =
    let rest = min_idx n candidates best (suc i) in
    if best == (candidates i).line_id then some i else rest

-- the positions from a candidate back to its seed
pub path_back : ℕ → Array WalkInfo → Option ℕ → Option (List ℕ)
path_back zero candidates idx = none
path_back (suc fuel) candidates none = some []
path_back (suc fuel) candidates (some idx) = do
  rest ← path_back fuel candidates (candidates idx).parent_idx
  some ((candidates idx).pos ∷ rest)

-- the swaps of `postinsert`, where the last position gets the candidate
pub swap_lines : Array ℕ → List ℕ → ℕ → Option (Array ℕ)
swap_lines lookup_array [] candidate = none
swap_lines lookup_array (pos ∷ []) candidate = some (write lookup_array pos candidate)
swap_lines lookup_array (pos ∷ next ∷ rest) candidate =
    swap_lines (write lookup_array pos (lookup_array next)) (next ∷ rest) candidate

abbrev pub count_swaps : List ℕ → ℕ
count_swaps [] = 0
count_swaps (pos ∷ []) = 0
count_swaps (pos ∷ next ∷ rest) = suc (count_swaps (next ∷ rest))

abbrev pub starts_at : Array ℕ → List ℕ → ℕ → Bool
starts_at lookup_array [] candidate = false
starts_at lookup_array (pos ∷ rest) candidate = lookup_array pos == candidate

module _ (hash : ℕ → ℕ → ℕ) (p : Policy) where
  pub position : ZArray p.State → ℕ → ℕ → ℕ
  position g w line_addr = w * g.num_sets + hash w line_addr % g.num_sets

  -- the line that holds the address, in the ways from `w` on
  pub find_way : ZArray p.State → ℕ → ℕ → ℕ → Option ℕ
  find_way g zero line_addr w = none
  find_way g (suc n) line_addr w =
      let id = g.lookup_array (position g w line_addr) in
      let rest = find_way g n line_addr (suc w) in if g.array id == line_addr then some id else rest

  pub touch : ZArray p.State → MemReq → Bool → Option ℕ → Option (Option ℕ × ZArray p.State)
  touch g req update none = some (none, g)
  touch g req false (some id) = some (some id, g)
  touch g req true (some id) = do rp ← p.update g.rp id req; some (some id, record g { rp = rp })

  pub lookup : ZArray p.State → ℕ → MemReq → Bool → Option (Option ℕ × ZArray p.State)
  lookup g line_addr req update = do
    require (not (line_addr == 0))
    touch g req update (find_way g g.ways line_addr 0)

  -- the seeds, way by way
  pub seed : ZArray p.State → ℕ → List ℕ → Walk → Walk
  seed g line_addr [] k = k
  seed g line_addr (w ∷ ws) k =
      let pos = position g w line_addr in
      let id = g.lookup_array pos in
      seed g line_addr ws (record k {
        candidates = write k.candidates w (record { pos = pos; line_id = id; parent_idx = none });
        all_valid = k.all_valid && not (g.array id == 0);
      })

  -- the loop over the ways of one line of the fringe
  pub expand : ZArray p.State → ℕ → ℕ → List ℕ → Walk → Walk
  expand g fringe fringe_id [] k = k
  expand g fringe fringe_id (w ∷ ws) k =
      let pos = position g w (g.array fringe_id) in
      let id = g.lookup_array pos in
      expand g fringe fringe_id ws (record {
        candidates =
            write k.candidates k.num_candidates
              (record { pos = pos; line_id = id; parent_idx = some fringe });
        num_candidates = (if id == fringe_id then k.num_candidates else suc k.num_candidates);
        all_valid = k.all_valid && not (g.array id == 0);
      })

  -- the breadth-first walk from the fringe on
  pub walk : ZArray p.State → ℕ → ℕ → Walk → Option Walk
  walk g zero fringe k = none
  walk g (suc fuel) fringe k =
      let id = (k.candidates fringe).line_id in
      let rest = walk g fuel (suc fringe) (expand g fringe id (range 0 g.ways) k) in
      if ltb k.num_candidates g.cands && k.all_valid
      then (require (not (g.array id == 0)) >> rest)
      else some k

  -- the choice among the candidates, and the swaps that it needs
  pub choose : ZArray p.State → MemReq → ℕ → Walk → Option (ℕ × ℕ × ZArray p.State)
  choose g req fuel k = do
    require (not k.all_valid || leb g.cands k.num_candidates)
    let n = min k.num_candidates g.cands
    (best, rp) ← p.rank g.rp req (map (λ i. (k.candidates i).line_id) (range 0 n))
    require (ltb best g.num_lines)
    idx ← min_idx n k.candidates best 0
    swap_array ← path_back fuel k.candidates (some idx)
    some (best, g.array best, record g { rp = rp; swap_array = swap_array; last_cand_idx = idx })

  pub preinsert : ZArray p.State → ℕ → MemReq → ℕ → Option (ℕ × ℕ × ZArray p.State)
  preinsert g line_addr req fuel = do
    let seeds = seed g line_addr (range 0 g.ways) (record {
      candidates = λ i. record { pos = 0; line_id = 0; parent_idx = none };
      num_candidates = g.ways;
      all_valid = true;
    })
    k ← walk g fuel 0 seeds
    choose g req fuel k

  pub postinsert : ZArray p.State → ℕ → MemReq → ℕ → Option (ZArray p.State)
  postinsert g line_addr req candidate = do
    require (starts_at g.lookup_array g.swap_array candidate)
    lookup_array ← swap_lines g.lookup_array g.swap_array candidate
    rp ← insert p g.rp candidate req
    some (record g {
      lookup_array = lookup_array;
      array = write g.array candidate line_addr;
      rp = rp;
      swaps = g.swaps + count_swaps g.swap_array;
    })
