-- ===== src/Coherence/Top/Count.antt =====
-- Counting the sharers.
use csce614_group_project.Base.{
  ℕ, zero, suc, ◌+◌, ◌≤◌, ◌<◌, ◌≡◌, ◌≢◌, refl, Bool, true, false, Array, write, arith,
}
use csce614_group_project.Coherence.Top.Directory.{bit, count}

pub count-le : (n c : ℕ) (set : Array Bool) → count n c set ≤ n
unfolding count
count-le zero c set = omega arith
count-le (suc n) c set = ground (arith, count-le n (suc c) set)

pub count_pos :
    (n c j : ℕ) (set : Array Bool) → c ≤ j → j < c + n → set j ≡ true → 1 ≤ count n c set
unfolding count
count_pos zero c j set p q h = absurd (omega arith)
count_pos (suc n) c j set p q h = ground (arith, count_pos n (suc c) j set)

pub count_two :
    (n c j l : ℕ) (set : Array Bool)
    → c ≤ j
    → j < c + n
    → c ≤ l
    → l < c + n
    → j ≢ l
    → set j ≡ true
    → set l ≡ true
    → 2 ≤ count n c set
unfolding count
count_two zero c j l set p q r t ne h g = absurd (omega arith)
count_two (suc n) c j l set p q r t ne h g =
    ground
      (arith, count_two n (suc c) j l set, count_pos n (suc c) j set, count_pos n (suc c) l set)

pub count_none : (n c : ℕ) (set : Array Bool) → ((j : ℕ) → set j ≡ false) → count n c set ≡ 0
unfolding count
count_none zero c set h = refl
count_none (suc n) c set h = ground (arith, h c, count_none n (suc c) set h)

pub count-write_below :
    (n c at : ℕ) (b : Bool) (set : Array Bool) → at < c → count n c (write set at b) ≡ count n c set
unfolding count
count-write_below zero c at b set h = refl
count-write_below (suc n) c at b set h =
    ground (arith, count-write_below n (suc c) at b set (omega arith))

pub count-write :
    (n c at : ℕ) (b : Bool) (set : Array Bool)
    → c ≤ at
    → at < c + n
    → count n c (write set at b) + bit (set at) ≡ count n c set + bit b
unfolding count
count-write zero c at b set p q = absurd (omega arith)
count-write (suc n) c at b set p q =
    ground (arith, count-write n (suc c) at b set, count-write_below n (suc c) at b set)
