-- ===== src/Repl/Aging.antt =====
-- The victim search that rrip_repl.h and ship_repl.h share: look for a line at the greatest
-- re-reference prediction value, and age every candidate while there is none.
pub mod Laws
use csce614_group_project.Base.{
  ℕ, zero, suc, Option, none, some, List, [], ◌∷◌, ◌==◌, if◌then◌else◌, Array, write, no_cand, max,
}

module _ {L : Type 0} (rrpv : L → ℕ) where
  -- the inner loop with its `break`
  unfoldable pub first_at : ℕ → Array L → List ℕ → ℕ
  first_at top a [] = no_cand
  first_at top a (c ∷ cs) = if rrpv (a c) == top then c else first_at top a cs

  -- The greatest value among the candidates.
  unfoldable pub peak : Array L → List ℕ → ℕ
  peak a [] = 0
  peak a (c ∷ cs) = max (rrpv (a c)) (peak a cs)

unfoldable pub age_all : {L : Type 0} → (L → L) → Array L → List ℕ → Array L
age_all age a [] = a
age_all age a (c ∷ cs) = age_all age (write a c (age (a c))) cs

-- the outer loop; `none` means that the fuel ran out
unfoldable pub search :
    {L : Type 0} → (L → ℕ) → (L → L) → ℕ → ℕ → Array L → List ℕ → Option (ℕ × Array L)
unfolding first_at age_all
search rrpv age zero top a cs = none
search rrpv age (suc f) top a cs =
    let rest = search rrpv age f top (age_all age a cs) cs in
    let best = first_at rrpv top a cs in if best == no_cand then rest else some (best, a)
