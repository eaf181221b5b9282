-- ===== src/Repl/Random.antt =====
-- zsim/src/repl_policies.h, class RandReplPolicy, with the `rank` of LegacyReplPolicy. The draw of the
-- Mersenne twister, `randInt`, is the parameter `rand_int` on its state. `none` is a failed assertion.
use csce614_group_project.Base.{
  ℕ, Option, some, List, [], ◌∷◌, Array, write, ◌==◌, ◌>>◌, require, add32, sub32,
}
use csce614_group_project.Hierarchy.{MemReq}

pub record Random (G : Type 0) : Type 0 where
  pub cand_array : Array ℕ
  pub num_cands : ℕ
  pub rnd : G
  pub cand_idx : ℕ

pub init : {G : Type 0} → ℕ → G → Random G
init num_cands rnd = record { cand_array = λ k. 0; num_cands = num_cands; rnd = rnd; cand_idx = 0 }

module _ {G : Type 0} (rand_int : G → ℕ → ℕ × G) where
  pub update : Random G → ℕ → MemReq → Random G
  update p id req = p

  pub record_candidate : Random G → ℕ → Random G
  record_candidate p id = record p {
    cand_array = write p.cand_array p.cand_idx id;
    cand_idx = add32 p.cand_idx 1;
  }

  pub get_best_candidate : Random G → Option (ℕ × Random G)
  get_best_candidate p = do
    require (p.cand_idx == p.num_cands)
    let (idx, rnd) = rand_int p.rnd (sub32 p.num_cands 1)
    some (p.cand_array idx, record p { rnd = rnd })

  pub record_all : Random G → List ℕ → Random G
  record_all p [] = p
  record_all p (c ∷ cs) = record_all (record_candidate p c) cs

  pub rank : Random G → MemReq → List ℕ → Option (ℕ × Random G)
  rank p req cands = get_best_candidate (record_all p cands)

  pub replaced : Random G → ℕ → Random G
  replaced p id = record p { cand_idx = 0 }
