-- ===== src/Repl/Hawkeye/Victim.antt =====
-- The choice of the victim, once the predictor is trained.
use csce614_group_project.Base.{
  ℕ, ◌≤◌, ◌≡◌, ◌≢◌, refl, true, false, arith, ◌==◌, leb, if◌then◌else◌, Array, write, List, [], ◌∷◌,
  Option, some, none, elem, Bool-cases, inl, inr, ◌∙◌, ◌⊎◌,
}
use csce614_group_project.Hierarchy.{MemReq}
use csce614_group_project.Repl.Hawkeye.{
  Hawkeye, age_line, age_lines, first_averse, last_largest, evict_friendly, choose, select,
  predict_instruction, train_instruction, get_set_index,
}
use csce614_group_project.Repl.Optgen.{sampled}

-- Every line's value is at most 7.
abbrev pub Lines : Array ℕ → Type 0
Lines a = (id : ℕ) → a id ≤ 7

age_line-Lines : (a : Array ℕ) (c : ℕ) → Lines a → Lines (age_line a c)
unfolding age_line
age_line-Lines a c v id = ground (arith, v id, v c)

pub age_lines-Lines : (a : Array ℕ) (cs : List ℕ) → Lines a → Lines (age_lines a cs)
unfolding age_lines
age_lines-Lines a [] v = v
age_lines-Lines a (c ∷ cs) v = age_lines-Lines (age_line a c) cs (age_line-Lines a c v)

-- Aging never makes a friendly line averse, nor an averse one friendly.
age_line_averse : (a : Array ℕ) (c id : ℕ) → (age_line a c id == 7) ≡ (a id == 7)
unfolding age_line
age_line_averse a c id = ground arith

pub age_lines_averse : (a : Array ℕ) (cs : List ℕ) (id : ℕ) → (age_lines a cs id == 7) ≡ (a id == 7)
unfolding age_lines
age_lines_averse a [] id = refl
age_lines_averse a (c ∷ cs) id = age_lines_averse (age_line a c) cs id ∙ age_line_averse a c id

-- The outcomes of the search for an averse line.
abbrev pub Averse : Array ℕ → List ℕ → Option ℕ → Type 0
Averse a cs none = (c : ℕ) → elem c cs ≡ true → a c ≢ 7
Averse a cs (some c) = (elem c cs ≡ true) × (a c ≡ 7)

pub first_averse-Averse : (a : Array ℕ) (cs : List ℕ) → Averse a cs (first_averse a cs)
unfolding first_averse
first_averse-Averse a [] = λ c h. cc
first_averse-Averse a (c ∷ cs) = elim (Bool-cases (a c == 7)) [
  | inl e ↦ rw e (ground arith)
  | inr e ↦ rw e (later (first_averse a cs) (first_averse-Averse a cs) e)
]
  where
    later : (o : Option ℕ) → Averse a cs o → (a c == 7) ≡ false → Averse a (c ∷ cs) o
    later none f e = λ d m. ground (arith, f d)
    later (some d) f e = ground arith

-- Where the last loop ends, from a best candidate `best` of value `low`.
record IsLargest (a : Array ℕ) (low best : ℕ) (cs : List ℕ) (r : ℕ) : Type 0 where
  among : (elem r cs ≡ true) ⊎ (r ≡ best)
  reaches : low ≤ a r
  greatest : (c : ℕ) → elem c cs ≡ true → a c ≤ a r

last_largest-IsLargest :
    (a : Array ℕ) (best : ℕ) (cs : List ℕ)
    → IsLargest a (a best) best cs (last_largest a (a best) best cs)
unfolding last_largest
last_largest-IsLargest a best [] = record {
  among = inr refl;
  reaches = omega arith;
  greatest = λ c h. cc;
}
last_largest-IsLargest a best (c ∷ cs) = elim (Bool-cases (leb (a best) (a c))) [
  | inl e ↦
      let r = last_largest-IsLargest a c cs in
      rw e (record {
        among = ground (arith, r.among);
        reaches = ground (arith, r.reaches);
        greatest = λ d h. ground (arith, r.reaches, r.greatest d);
      })
  | inr e ↦
      let r = last_largest-IsLargest a best cs in
      rw e (record {
        among = ground (arith, r.among);
        reaches = r.reaches;
        greatest = λ d h. ground (arith, r.reaches, r.greatest d);
      })
]

leb_zero : (n : ℕ) → leb 0 n ≡ true
leb_zero n = ground arith

first_step :
    (a : Array ℕ) (c : ℕ) (cs : List ℕ) → last_largest a 0 0 (c ∷ cs) ≡ last_largest a (a c) c cs
unfolding last_largest
first_step a c cs = rw (leb_zero (a c))

-- From nothing, the loop ends at a candidate of the greatest value.
largest_found :
    (a : Array ℕ) (cs : List ℕ)
    → cs ≢ []
    → (elem (last_largest a 0 0 cs) cs ≡ true)
      × ((c : ℕ) → elem c cs ≡ true → a c ≤ a (last_largest a 0 0 cs))
largest_found a [] ne = absurd (ne refl)
largest_found a (c ∷ cs) ne =
    let r : IsLargest a (a c) c cs (last_largest a 0 0 (c ∷ cs)) =
      rw (first_step a c cs) (last_largest-IsLargest a c cs) in
    (ground (arith, r.among), λ d h. ground (arith, r.reaches, r.greatest d))

-- The array that the victim is looked for in: every candidate aged, unless the request is friendly.
pub aged_array : Hawkeye → MemReq → List ℕ → Array ℕ
aged_array p req cs =
    if predict_instruction p.predictor req.pc then p.array else age_lines p.array cs

-- A choice among the candidates `cs`: an averse line if there is one, and nothing is unlearnt; else a
-- line of the greatest value after aging, whose program counter is trained down if the set is
-- sampled.
pub data Chooses (p : Hawkeye) (req : MemReq) (cs : List ℕ) (best : ℕ) (q : Hawkeye) : Type 0 where
  averse :
      p.array best ≡ 7
      → q.predictor ≡ p.predictor
      → q.array ≡ aged_array p req cs
      → Chooses p req cs best q
  friendly :
      ((c : ℕ) → elem c cs ≡ true → p.array c ≢ 7)
      → ((c : ℕ) → elem c cs ≡ true → aged_array p req cs c ≤ aged_array p req cs best)
      → q.predictor ≡ (
          if sampled p.opt_gen (get_set_index p req.line_addr)
          then train_instruction p.predictor (p.array_pcs best) false
          else p.predictor)
      → q.array
        ≡ write (aged_array p req cs) best (if predict_instruction p.predictor req.pc then 0 else 7)
      → Chooses p req cs best q

aged_array_averse :
    (p : Hawkeye) (req : MemReq) (cs : List ℕ) (id : ℕ)
    → (aged_array p req cs id == 7) ≡ (p.array id == 7)
unfolding aged_array
aged_array_averse p req cs id = ground (arith, age_lines_averse p.array cs id)

pub aged_array-Lines :
    (p : Hawkeye) (req : MemReq) (cs : List ℕ) → Lines p.array → Lines (aged_array p req cs)
unfolding aged_array
aged_array-Lines p req cs v id = ground (arith, v id, age_lines-Lines p.array cs v id)

-- What `select` leaves alone.
pub record Keeps (p q : Hawkeye) : Type 0 where
  pub opt_gen : q.opt_gen ≡ p.opt_gen
  pub block_size : q.block_size ≡ p.block_size
  pub set_span : q.set_span ≡ p.set_span

module _ (p : Hawkeye) (req : MemReq) (cs : List ℕ) (some_cand : cs ≢ []) where
  abbrev aged : Hawkeye
  aged = record p { array = aged_array p req cs }

  choose-Chooses :
      (o : Option ℕ)
      → Averse (aged_array p req cs) cs o
      → let r = choose aged req (predict_instruction p.predictor req.pc) cs o in
        (elem r.0 cs ≡ true) × Keeps p r.1 × Chooses p req cs r.0 r.1
  unfolding evict_friendly
  choose-Chooses (some c) (mem, top) = (
    mem,
    record { opt_gen = refl; block_size = refl; set_span = refl },
    averse (ground (arith, aged_array_averse p req cs c)) refl refl,
  )
  choose-Chooses none f =
      let (mem, greatest) = largest_found (aged_array p req cs) cs some_cand in
      (
        mem,
        record { opt_gen = refl; block_size = refl; set_span = refl },
        friendly (λ c h e. f c h (ground (arith, aged_array_averse p req cs c))) greatest refl refl,
      )

  select-choose :
      select p req cs
      ≡ choose aged req
          (predict_instruction p.predictor req.pc)
          cs
          (first_averse (aged_array p req cs) cs)
  unfolding select aged_array
  select-choose = elim (Bool-cases (predict_instruction p.predictor req.pc)) [
    | inl e ↦ rw e
    | inr e ↦ rw e
  ]

  -- On at least one candidate, the victim is one of them, and OPTgen is left alone. It is a
  -- cache-averse line if there is one, and nothing is unlearnt. Else every candidate is friendly: the
  -- victim has the greatest value after aging, and the program counter that used it last is trained
  -- down if the set is sampled.
  pub select-Chooses :
      let r = select p req cs in (elem r.0 cs ≡ true) × Keeps p r.1 × Chooses p req cs r.0 r.1
  select-Chooses = rw select-choose (
      choose-Chooses (first_averse (aged_array p req cs) cs)
        (first_averse-Averse (aged_array p req cs) cs))
