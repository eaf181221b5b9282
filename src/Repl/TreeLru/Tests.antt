-- ===== src/Repl/TreeLru/Tests.antt =====
-- Four candidates, of which the last pair was used later than the first one.
use mathlib.Core.Option.{none-ne-some}
use csce614_group_project.Base.{ℕ, ◌≡◌, ◌≢◌, sym, refl, none, some, [], ◌∷◌, List, write, arith}
use csce614_group_project.Repl.TreeLru.{
  TreeLru, init, record_candidate, get_best_candidate, halve, latest,
}
use csce614_group_project.Repl.TreeLru.Halves.{Chosen, get_best_candidate-Chosen}

powers_only : (init 8 4 ≢ none) × (init 8 6 ≡ none)
unfolding init
powers_only = (λ e. none-ne-some _ (sym e), refl)

abbrev record_all : TreeLru → List ℕ → TreeLru
record_all p [] = p
record_all p (id ∷ ids) = record_all (record_candidate p id) ids

-- lines 0 to 3, used at 4, 1, 5 and 2
abbrev four : TreeLru
four = record {
  lru = record {
    timestamp = 6;
    array = write (write (write (write (λ id. 0) 0 4) 1 1) 2 5) 3 2;
    num_lines = 4;
  };
  cand_array = λ k. 0;
  num_cands = 4;
  cand_idx = 0;
}

abbrev recorded : TreeLru
recorded = record_all four (0 ∷ 1 ∷ 2 ∷ 3 ∷ [])

choice_test : get_best_candidate 4 recorded ≡ some 1
unfolding get_best_candidate halve latest record_candidate
choice_test = refl

get_best_candidate-Chosen_example :
    (id : ℕ) × (get_best_candidate 4 recorded ≡ some id) × Chosen recorded 0 4 id
unfolding record_candidate
get_best_candidate-Chosen_example = get_best_candidate-Chosen recorded refl (omega arith)
