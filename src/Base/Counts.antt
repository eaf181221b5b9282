-- ===== src/Base/Counts.antt =====
-- How many of the first elements of an array a test accepts.
use Prim.Native.Nat.{ℕ, zero, suc, ◌+◌, ◌≤◌, ◌<◌}
use mathlib.Core.Path.{◌≡◌, refl}
use mathlib.Core.Logic.{inl, inr}
use mathlib.Core.Bool.{Bool, true, false}
use native.Mathlib.Omega.{arith}
use csce614_group_project.Base.Tests.{ltb, Bool-cases}
use csce614_group_project.Base.Arrays.{Array, write}

abbrev pub weight : Bool → ℕ
weight true = 1
weight false = 0

module _ {A : Type 0} (test : A → Bool) where
  pub count : ℕ → Array A → ℕ
  count zero a = 0
  count (suc n) a = count n a + weight (test (a n))

  count-write_above :
      (n : ℕ) (a : Array A) (t : ℕ) (v : A) → n ≤ t → count n (write a t v) ≡ count n a
  unfolding count
  count-write_above zero a t v h = refl
  count-write_above (suc n) a t v h = ground (arith, count-write_above n a t v)

  pub count-write :
      (n : ℕ) (a : Array A) (t : ℕ) (v : A)
      → t < n
      → count n (write a t v) + weight (test (a t)) ≡ count n a + weight (test v)
  unfolding count
  count-write zero a t v h = absurd (omega arith)
  count-write (suc n) a t v h = elim (Bool-cases (ltb t n)) [
    | inl p ↦ ground (arith, count-write n a t v)
    | inr p ↦ ground (arith, count-write_above n a t v)
  ]

  pub count-le : (n : ℕ) (a : Array A) → count n a ≤ n
  unfolding count
  count-le zero a = omega arith
  count-le (suc n) a = ground (arith, count-le n a)

  -- an element that the test accepts is counted
  pub count-pos : (n : ℕ) (a : Array A) (t : ℕ) → t < n → test (a t) ≡ true → 0 < count n a
  unfolding count
  count-pos zero a t h on = absurd (omega arith)
  count-pos (suc n) a t h on = elim (Bool-cases (ltb t n)) [
    | inl p ↦ ground (arith, count-pos n a t)
    | inr p ↦ ground arith
  ]

  -- where the test accepts none, none is counted
  pub count-zero : (n : ℕ) (a : Array A) → ((t : ℕ) → t < n → test (a t) ≡ false) → count n a ≡ 0
  unfolding count
  count-zero zero a h = refl
  count-zero (suc n) a h = ground (arith, count-zero n a (λ t ht. h t (omega arith)), h n)

  -- where it accepts all, all are
  pub count-all : (n : ℕ) (a : Array A) → ((t : ℕ) → t < n → test (a t) ≡ true) → count n a ≡ n
  unfolding count
  count-all zero a h = refl
  count-all (suc n) a h = ground (arith, count-all n a (λ t ht. h t (omega arith)), h n)

-- a test that is the sum of three
pub count-sum :
    {A : Type 0} (p q r s : A → Bool)
    → ((v : A) → weight (p v) ≡ weight (q v) + weight (r v) + weight (s v))
    → (n : ℕ) (a : Array A) → count p n a ≡ count q n a + count r n a + count s n a
unfolding count
count-sum p q r s h zero a = refl
count-sum p q r s h (suc n) a = omega (arith, count-sum p q r s h n a, h (a n))
