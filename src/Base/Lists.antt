-- ===== src/Base/Lists.antt =====
-- Lists measured by native numbers, lists of indices, and predicates by recursion.
use Prim.Native.Nat.{ℕ, zero, suc, ◌<◌}
use mathlib.Core.Path.{◌≡◌, refl}
use mathlib.Core.Bool.{Bool, true, false, ◌||◌}
use mathlib.Core.List.{List, [], ◌∷◌, Mem, mem-cons_self, mem-cons_of_mem}
use native.Mathlib.Omega.{arith}
use csce614_group_project.Base.Tests.{◌==◌}

abbrev pub length {ℓ} : {A : Type ℓ} → List A → ℕ
length [] = 0
length (x ∷ xs) = suc (length xs)

abbrev pub All {ℓ κ} : {A : Type ℓ} → (A → Type κ) → List A → Type κ
All P [] = Unit
All P (x ∷ xs) = P x × All P xs

-- first, first + 1, …, n indices in all
abbrev pub range : ℕ → ℕ → List ℕ
range first zero = []
range first (suc n) = first ∷ range (suc first) n

abbrev pub elem : ℕ → List ℕ → Bool
elem x [] = false
elem x (y ∷ ys) = (x == y) || elem x ys

abbrev pub IsDistinct : List ℕ → Type 0
IsDistinct [] = Unit
IsDistinct (x ∷ xs) = (elem x xs ≡ false) × IsDistinct xs

pub Mem-elem : (x : ℕ) (ys : List ℕ) → elem x ys ≡ true → Mem x ys
Mem-elem x [] h = cc
Mem-elem x (y ∷ ys) h = ground (arith, head, λ (p : elem x ys ≡ true). tail (Mem-elem x ys p))
  where
    head : x ≡ y → Mem x (y ∷ ys)
    head p = rw p mem-cons_self

    tail : Mem x ys → Mem x (y ∷ ys)
    tail = mem-cons_of_mem y

pub elem-range_below : (x first n : ℕ) → x < first → elem x (range first n) ≡ false
elem-range_below x first zero h = refl
elem-range_below x first (suc n) h = ground (arith, elem-range_below x (suc first) n)

pub range-IsDistinct : (first n : ℕ) → IsDistinct (range first n)
range-IsDistinct first zero = tt
range-IsDistinct first (suc n) =
    (elem-range_below first (suc first) n (omega arith), range-IsDistinct (suc first) n)
