-- ===== src/Repl/TreeLru.antt =====
-- zsim/src/repl_policies.h, class TreeLRUReplPolicy, which adds the choice by halves to LRU. The `rank`
-- that the cache array calls is LRU's, which does not record the candidates. `none` is a failed
-- assertion, a panic, or a search of more than `fuel` rounds.
use Prim.Native.Nat.{bit_and}
use csce614_group_project.Base.{
  ℕ, zero, suc, ◌+◌, ◌-◌, ◌/◌, Option, none, some, Array, write, add32, sub32, max, ltb, ◌==◌,
  if◌then◌else◌, ◌>>◌, require,
}
use csce614_group_project.Repl.Lru.{Lru}
use csce614_group_project.Repl.Lru
pub mod Halves
mod Tests

pub record TreeLru : Type 0 where
  pub lru : Lru
  pub cand_array : Array ℕ
  pub num_cands : ℕ
  pub cand_idx : ℕ

-- the constructor, with its test for a power of 2
pub init : ℕ → ℕ → Option TreeLru
init num_lines num_cands = do
  require (bit_and num_cands (sub32 num_cands 1) == 0)
  some (record {
    lru = Lru.init num_lines;
    cand_array = λ k. 0;
    num_cands = num_cands;
    cand_idx = 0;
  })

pub record_candidate : TreeLru → ℕ → TreeLru
record_candidate p id = record p {
  cand_array = write p.cand_array p.cand_idx id;
  cand_idx = add32 p.cand_idx 1;
}

-- the latest use among `n` candidates from `i` on
pub latest : TreeLru → ℕ → ℕ → ℕ → ℕ
latest p zero i t = t
latest p (suc n) i t = latest p n (suc i) (max t (p.lru.array (p.cand_array i)))

-- The half with the earlier latest use is searched on; the first one on a tie.
pub halve : ℕ → TreeLru → ℕ → ℕ → Option ℕ
halve zero p start stop = none
halve (suc fuel) p start stop =
    let pivot = start + (stop - start) / 2 in
    let t1 = latest p (pivot - start) start 0 in
    let t2 = latest p (stop - pivot) pivot 0 in
    let later = ltb t2 t1 in
    let rest = halve fuel p (if later then pivot else start) (if later then stop else pivot) in
    if ltb 1 (stop - start) then rest else some (p.cand_array start)

pub get_best_candidate : ℕ → TreeLru → Option ℕ
get_best_candidate fuel p = do require (p.cand_idx == p.num_cands); halve fuel p 0 p.num_cands

pub replaced : TreeLru → ℕ → TreeLru
replaced p id = record p { lru = Lru.replaced p.lru id; cand_idx = 0 }
