-- ===== src/Cache/Zcache/Tests.antt =====
-- Eight lines in two ways with SRRIP, where the line at position 1 moves to position 6.
use csce614_group_project.Base.{ℕ, ◌+◌, ◌≡◌, refl, some, [], ◌∷◌, write, arith}
use csce614_group_project.Repl.Samples.{request}
use csce614_group_project.Repl.Srrip.{Srrip}
use csce614_group_project.Repl.Srrip
use csce614_group_project.Repl.Srrip.Laws.{laws, init-Bounded}
use csce614_group_project.Cache.Zcache.{ZArray, position, postinsert, count_swaps}
use csce614_group_project.Cache.Zcache.Swaps.{IsPlacement, Inserts, postinsert-Inserts}

abbrev skewed : ℕ → ℕ → ℕ
skewed w addr = addr + w

-- Address 5 may stand at position 1 or 6.
abbrev walked : ZArray Srrip
walked = record {
  array = write (λ id. 0) 1 5;
  lookup_array = λ pos. pos;
  rp = Srrip.init 8 3;
  num_lines = 8;
  num_sets = 4;
  ways = 2;
  cands = 4;
  swap_array = 6 ∷ 1 ∷ [];
  last_cand_idx = 3;
  swaps = 0;
}

walked-IsPlacement : IsPlacement walked.lookup_array
walked-IsPlacement = record { once = λ i j p. p; place = λ id. (id, refl) }

swaps_test : count_swaps walked.swap_array ≡ 1
swaps_test = refl

postinsert-Inserts_example :
    (g' : ZArray Srrip) × (postinsert skewed Srrip.policy walked 77 (request 77 400) 6 ≡ some g')
    × Inserts skewed Srrip.policy walked g' 77 6 (request 77 400)
unfolding laws position
postinsert-Inserts_example =
    postinsert-Inserts skewed Srrip.policy laws walked 77 6 (request 77 400) 6 (1 ∷ []) 0
      (init-Bounded 8 3 (omega arith) (omega arith)) walked-IsPlacement refl refl (omega arith) refl
      (λ e. absurd (omega (arith, e)))
