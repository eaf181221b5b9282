-- ===== src/Repl/Hawkeye/Predictor.antt =====
-- The 3-bit counters of the predictor.
use csce614_group_project.Base.{
  ℕ, zero, suc, ◌+◌, ◌-◌, ◌≤◌, ◌<◌, ◌≡◌, Bool, true, false, arith, ◌==◌, if◌then◌else◌, Array, min,
  List, [], ◌∷◌,
}
use csce614_group_project.Repl.Hawkeye.{hash_instruction, predict_instruction, train_instruction}

abbrev pub Saturates : Array ℕ → Type 0
Saturates predictor = (k : ℕ) → predictor k ≤ 7

pub train-Saturates :
    (predictor : Array ℕ) (pc : ℕ) (taken : Bool)
    → Saturates predictor
    → Saturates (train_instruction predictor pc taken)
unfolding train_instruction
train-Saturates predictor pc true v k = ground (arith, v k, v (hash_instruction pc))
train-Saturates predictor pc false v k = ground (arith, v k, v (hash_instruction pc))

-- From counters of at most 7, training moves the counter of the program counter's entry by one,
-- within 0 and 7, and no other.
pub train_instruction_lem :
    (predictor : Array ℕ) (pc k : ℕ)
    → Saturates predictor
    → (train_instruction predictor pc true k
        ≡ (if k == hash_instruction pc then min 7 (predictor k + 1) else predictor k))
      × (train_instruction predictor pc false k
          ≡ (if k == hash_instruction pc then predictor k - 1 else predictor k))
unfolding train_instruction
train_instruction_lem predictor pc k v =
    (ground (arith, v k, v (hash_instruction pc)), ground (arith, v k, v (hash_instruction pc)))

pub hash_instruction-lt : (pc : ℕ) → hash_instruction pc < 8192
unfolding hash_instruction
hash_instruction-lt pc = omega arith

-- Training on a list of outcomes, the first first.
pub train_all : Array ℕ → ℕ → List Bool → Array ℕ
train_all predictor pc [] = predictor
train_all predictor pc (t ∷ ts) = train_all (train_instruction predictor pc t) pc ts

abbrev pub constantly : ℕ → Bool → List Bool
constantly zero t = []
constantly (suc n) t = t ∷ constantly n t

train_up :
    (predictor : Array ℕ) (pc n : ℕ)
    → Saturates predictor
    → train_all predictor pc (constantly n true) (hash_instruction pc)
      ≡ min 7 (predictor (hash_instruction pc) + n)
unfolding train_all
train_up predictor pc zero v = omega (arith, v (hash_instruction pc))
train_up predictor pc (suc n) v =
    let next = train-Saturates predictor pc true v in
    ground (
      arith,
      train_up (train_instruction predictor pc true) pc n next,
      (train_instruction_lem predictor pc (hash_instruction pc) v).0,
    )

train_down :
    (predictor : Array ℕ) (pc n : ℕ)
    → Saturates predictor
    → train_all predictor pc (constantly n false) (hash_instruction pc)
      ≡ predictor (hash_instruction pc) - n
unfolding train_all
train_down predictor pc zero v = omega arith
train_down predictor pc (suc n) v =
    let next = train-Saturates predictor pc false v in
    ground (
      arith,
      train_down (train_instruction predictor pc false) pc n next,
      (train_instruction_lem predictor pc (hash_instruction pc) v).1,
    )

-- From counters of at most 7: four or more hits in a row of the optimal policy make any program
-- counter friendly, and as many misses in a row make any averse, whatever was learnt before.
pub four_decide :
    (predictor : Array ℕ) (pc n : ℕ)
    → Saturates predictor
    → 4 ≤ n
    → (predict_instruction (train_all predictor pc (constantly n true)) pc ≡ true)
      × (predict_instruction (train_all predictor pc (constantly n false)) pc ≡ false)
unfolding predict_instruction
four_decide predictor pc n v h = (
  ground (arith, train_up predictor pc n v),
  ground (arith, train_down predictor pc n v, v (hash_instruction pc)),
)
