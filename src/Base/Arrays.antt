-- ===== src/Base/Arrays.antt =====
-- A C array as the function from an index to its element. A write changes one element.
-- An index past the end is undefined behaviour in the program; here it reads like any other.
use Prim.Native.Nat.{ℕ}
use mathlib.Core.Path.{◌≡◌}
use mathlib.Core.Logic.{◌≢◌}
use native.Mathlib.Omega.{arith}
use csce614_group_project.Base.Tests.{◌==◌, if◌then◌else◌}

abbrev pub Array {ℓ} : Type ℓ → Type ℓ
Array A = ℕ → A

module _ {ℓ} {A : Type ℓ} where
  abbrev pub write : Array A → ℕ → A → Array A
  write a i v j = if j == i then v else a j

  pub write_self : (a : Array A) (i : ℕ) (v : A) → write a i v i ≡ v
  write_self a i v = ground arith

  pub write_ne : (a : Array A) (i j : ℕ) (v : A) → j ≢ i → write a i v j ≡ a j
  write_ne a i j v h = ground arith
