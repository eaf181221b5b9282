-- ===== src/Repl/Hawkeye.antt =====
-- zsim/src/hawkeye_repl.h, classes hawkeye_predictor and HawkeyeReplPolicy.
use Prim.Native.Nat.{bit_xor}
use csce614_group_project.Base.{
  ℕ, zero, suc, ◌+◌, ◌-◌, ◌*◌, ◌/◌, ◌%◌, Bool, true, false, Option, none, some, List, [], ◌∷◌,
  Array, write, ◌==◌, ltb, leb, if◌then◌else◌, ◌>>=◌,
}
use csce614_group_project.Hierarchy.{MemReq}
use csce614_group_project.Repl.Policy.{Policy}
use csce614_group_project.Repl.Optgen.{Optgen, cache_access, sampled}
use csce614_group_project.Repl.Optgen
pub mod Predictor
pub mod Victim
pub mod Laws
pub mod Misses
mod Tests

abbrev pub cache_averse : ℕ
cache_averse = 7

-- `hash_instruction`: `& (map_size - 1)` keeps the low 13 bits
pub hash_instruction : ℕ → ℕ
hash_instruction pc = bit_xor (pc / 4) (pc / 8192) % 8192

pub predict_instruction : Array ℕ → ℕ → Bool
unfolding hash_instruction
predict_instruction predictor pc = leb 4 (predictor (hash_instruction pc))

pub train_instruction : Array ℕ → ℕ → Bool → Array ℕ
unfolding hash_instruction
train_instruction predictor pc true =
    let idx = hash_instruction pc in
    write predictor idx (if ltb (predictor idx) 7 then predictor idx + 1 else predictor idx)
train_instruction predictor pc false =
    let idx = hash_instruction pc in
    write predictor idx (if ltb 0 (predictor idx) then predictor idx - 1 else predictor idx)

-- The log2 fields of the constructor are kept as the powers that they stand for: a shift right by
-- `blockOffsetBits` is a division by `block_size`, a mask with `setMask` a remainder by `set_span`.
pub record Hawkeye : Type 0 where
  pub num_lines : ℕ
  pub num_ways : ℕ
  pub array : Array ℕ
  pub array_pcs : Array ℕ
  pub opt_gen : Optgen
  pub predictor : Array ℕ
  pub block_size : ℕ
  pub set_span : ℕ

-- the greatest power of two that divides a number, `1 << __builtin_ctz(n)`, within `f` bits
pub low_bit : ℕ → ℕ → ℕ
low_bit zero n = 1
low_bit (suc f) n = let rest = 2 * low_bit f (n / 2) in if n % 2 == 0 then rest else 1

-- the constructor
pub init : ℕ → ℕ → ℕ → Hawkeye
unfolding low_bit
init num_lines num_ways line_size = record {
  num_lines = num_lines;
  num_ways = num_ways;
  array = λ id. if ltb id num_lines then cache_averse else 0;
  array_pcs = λ id. 0;
  opt_gen = Optgen.init num_lines num_ways;
  predictor = λ k. 0;
  block_size = low_bit 32 line_size;
  set_span = low_bit 32 (num_lines / num_ways);
}

pub get_set_index : Hawkeye → ℕ → ℕ
get_set_index p line_addr = line_addr / p.block_size % p.set_span

abbrev learn : Hawkeye → ℕ → Bool × Optgen → Option Hawkeye
learn p pc (opt_hit, opt_gen) =
    some (record p { opt_gen = opt_gen; predictor = train_instruction p.predictor pc opt_hit })

-- the access of OPTgen and the training by it, at the head of `update` and of `rank`
pub observe : Hawkeye → MemReq → Option Hawkeye
unfolding get_set_index
observe p req =
    let set_index = get_set_index p req.line_addr in
    let line_number = req.line_addr / p.block_size in
    let access = cache_access (p.opt_gen.vector_size + 1) p.opt_gen line_number set_index in
    if sampled p.opt_gen set_index then (access >>= learn p req.pc) else some p

-- the rest of `update`
pub set_line : Hawkeye → ℕ → MemReq → Hawkeye
unfolding predict_instruction
set_line p id req =
    if predict_instruction p.predictor req.pc
    then record p { array = write p.array id 0; array_pcs = write p.array_pcs id req.pc }
    else record p { array = write p.array id cache_averse; array_pcs = write p.array_pcs id req.pc }

pub update : Hawkeye → ℕ → MemReq → Option Hawkeye
update p id req = do p' ← observe p req; some (set_line p' id req)

pub replaced : Hawkeye → ℕ → Hawkeye
replaced p id = p

-- one line of the aging loop of `rank`
age_line : Array ℕ → ℕ → Array ℕ
age_line a c = if ltb (a c) (cache_averse - 1) then write a c (a c + 1) else a

pub age_lines : Array ℕ → List ℕ → Array ℕ
unfolding age_line
age_lines a [] = a
age_lines a (c ∷ cs) = age_lines (age_line a c) cs

-- the first candidate that is cache averse
pub first_averse : Array ℕ → List ℕ → Option ℕ
first_averse a [] = none
first_averse a (c ∷ cs) = if a c == cache_averse then some c else first_averse a cs

-- the last loop: `largest` and `best_cand` over the candidates
pub last_largest : Array ℕ → ℕ → ℕ → List ℕ → ℕ
last_largest a largest best [] = best
last_largest a largest best (c ∷ cs) =
    last_largest a (if leb largest (a c) then a c else largest)
      (if leb largest (a c) then c else best) cs

-- an eviction of a line that is not averse
pub evict_friendly : Hawkeye → MemReq → Bool → ℕ → Hawkeye
unfolding get_set_index
evict_friendly p req friendly best = record p {
  array = write p.array best (if friendly then 0 else cache_averse);
  predictor =
      (if sampled p.opt_gen (get_set_index p req.line_addr)
        then train_instruction p.predictor (p.array_pcs best) false
        else p.predictor);
  array_pcs = write p.array_pcs best req.pc;
}

abbrev choose : Hawkeye → MemReq → Bool → List ℕ → Option ℕ → ℕ × Hawkeye
choose p req friendly cands (some c) = (c, p)
choose p req friendly cands none =
    let best = last_largest p.array 0 0 cands in (best, evict_friendly p req friendly best)

-- `rank` after the training
pub select : Hawkeye → MemReq → List ℕ → ℕ × Hawkeye
select p req cands =
    let friendly = predict_instruction p.predictor req.pc in
    let aged = (if friendly then p else record p { array = age_lines p.array cands }) in
    choose aged req friendly cands (first_averse aged.array cands)

pub rank : Hawkeye → MemReq → List ℕ → Option (ℕ × Hawkeye)
rank p req cands = do p' ← observe p req; some (select p' req cands)

abbrev pub policy : Policy
policy = record { State = Hawkeye; update = update; replaced = replaced; rank = rank }
