-- ===== src/Repl/Nru/Victim.antt =====
-- zsim/src/repl_policies.h, NRUReplPolicy: its victim against the values of the candidates.
use native.Mathlib.Nat.{mod-lt}
use csce614_group_project.Base.{
  ℕ, ◌+◌, ◌/◌, ◌%◌, ◌≤◌, ◌<◌, ◌≡◌, refl, true, some, List, [], ◌∷◌, Array, ltb, leb, ◌==◌,
  if◌then◌else◌, elem, length, arith, u32_mod, Bool-cases, inl, inr, ◌⊎◌, ap,
}
use csce614_group_project.Hierarchy.{MemReq}
use csce614_group_project.Repl.Nru.{
  Nru, no_val, init, update, mark, shift, record_candidate, get_best_candidate, record_all, rank,
  replaced,
}

-- Between replacements no candidate is recorded, and every value is of two bits.
pub record Ready (p : Nru) : Type 0 where
  pub no_cands : p.cand_idx ≡ 0
  pub no_best : p.cand_val ≡ no_val
  pub two_bits : (id : ℕ) → p.array id ≤ 3

pub init-Ready : (n : ℕ) → Ready (init n)
unfolding init
init-Ready n = record { no_cands = refl; no_best = refl; two_bits = λ id. omega arith }

marked : ℕ → ℕ
marked v = if v / 2 % 2 == 1 then v else v + 2

marked-le : (v : ℕ) → v ≤ 3 → marked v ≤ 3
unfolding marked
marked-le v h = ground arith

mark-le : (p : Nru) (id : ℕ) → ((j : ℕ) → p.array j ≤ 3) → (j : ℕ) → (mark p id).array j ≤ 3
unfolding mark marked
mark-le p id v j = ground (arith, v j, marked-le (p.array id) (v id))

pub update-Ready : (p : Nru) (id : ℕ) (req : MemReq) → Ready p → Ready (update p id req)
unfolding update shift mark
update-Ready p id req v =
    elim (Bool-cases (leb ((mark p id).num_lines / 2) (mark p id).young_lines)) [
      | inl e ↦ rw e (record {
        no_cands = v.no_cands;
        no_best = v.no_best;
        two_bits = λ j. ground (arith, mark-le p id v.two_bits j);
      })
      | inr e ↦ rw e (record {
        no_cands = v.no_cands;
        no_best = v.no_best;
        two_bits = mark-le p id v.two_bits;
      })
    ]

-- What is recorded: lines among `all` of the value `cand_val`.
record Collects (a : Array ℕ) (all : List ℕ) (p : Nru) : Type 0 where
  same : p.array ≡ a
  among : (k : ℕ) → k < p.cand_idx → elem (p.cand_array k) all ≡ true
  equal : (k : ℕ) → k < p.cand_idx → a (p.cand_array k) ≡ p.cand_val

-- One candidate more: the best value falls to it at most, and some candidate stays recorded.
record Advances (a : Array ℕ) (all : List ℕ) (c : ℕ) (p q : Nru) : Type 0 where
  collects : Collects a all q
  falls : q.cand_val ≤ p.cand_val
  below : q.cand_val ≤ a c
  grows : q.cand_idx ≤ p.cand_idx + 1
  kept : (0 < p.cand_idx) ⊎ (a c < p.cand_val) → 0 < q.cand_idx

record_candidate-Advances :
    (a : Array ℕ) (all : List ℕ) (c : ℕ) (p : Nru)
    → Collects a all p
    → elem c all ≡ true
    → p.cand_idx + 1 < u32_mod
    → Advances a all c p (record_candidate p c)
unfolding record_candidate
record_candidate-Advances a all c p v mem fit =
    let at : p.array c ≡ a c = ap (λ (f : Array ℕ). f c) v.same in
    elim (Bool-cases (ltb (p.array c) p.cand_val)) [
      | inl e ↦ rw e (record {
        collects = record {
          same = v.same;
          among = λ k h. ground (arith, mem);
          equal = λ k h. ground (arith, at);
        };
        falls = ground arith;
        below = omega (arith, at);
        grows = omega arith;
        kept = λ h. omega arith;
      })
      | inr e ↦ elim (Bool-cases (p.array c == p.cand_val)) [
        | inl same ↦
            rw (e, same)
              (record {
                collects = record {
                  same = v.same;
                  among = λ k h. ground (arith, mem, v.among k, fit);
                  equal = λ k h. ground (arith, at, v.equal k, fit);
                };
                falls = omega arith;
                below = ground (arith, at);
                grows = omega (arith, fit);
                kept = λ h. omega (arith, fit);
              })
        | inr more ↦
            rw (e, more)
              (record {
                collects = v;
                falls = omega arith;
                below = ground (arith, at);
                grows = omega arith;
                kept = λ h. ground (arith, at);
              })
      ]
    ]

-- Where the loop over the candidates `cs` ends.
record Collected (a : Array ℕ) (all cs : List ℕ) (p q : Nru) : Type 0 where
  collects : Collects a all q
  falls : q.cand_val ≤ p.cand_val
  below : (c : ℕ) → elem c cs ≡ true → q.cand_val ≤ a c
  kept : 0 < p.cand_idx → 0 < q.cand_idx

record_all-Collected :
    (a : Array ℕ) (all cs : List ℕ) (p : Nru)
    → Collects a all p
    → ((c : ℕ) → elem c cs ≡ true → elem c all ≡ true)
    → p.cand_idx + length cs < u32_mod
    → Collected a all cs p (record_all p cs)
unfolding record_all
record_all-Collected a all [] p v inside fit = record {
  collects = v;
  falls = omega arith;
  below = λ c h. cc;
  kept = λ h. h;
}
record_all-Collected a all (c ∷ cs) p v inside fit =
    let s = record_candidate-Advances a all c p v (inside c (ground arith)) (omega arith) in
    let r =
      record_all-Collected a all cs (record_candidate p c) s.collects
        (λ d h. inside d (ground arith)) (omega (arith, s.grows)) in
    record {
      collects = r.collects;
      falls = omega (arith, r.falls, s.falls);
      below = λ d h. ground (arith, r.below d, r.falls, s.below);
      kept = λ h. r.kept (s.kept (inl h));
    }

-- The victim: a candidate of the least value. With the insertion that follows, the policy is ready again.
pub record Picks (p : Nru) (cs : List ℕ) (best : ℕ) (q : Nru) : Type 0 where
  pub member : elem best cs ≡ true
  pub least : (c : ℕ) → elem c cs ≡ true → p.array best ≤ p.array c
  pub same : q.array ≡ p.array
  pub ready_again : Ready (replaced q best)

some_recorded :
    (p : Nru) (c : ℕ) (cs : List ℕ)
    → Ready p
    → length (c ∷ cs) < u32_mod
    → 0 < (record_all p (c ∷ cs)).cand_idx
unfolding record_all
some_recorded p c cs v few =
    let start : Collects p.array (c ∷ cs) p = record {
      same = refl;
      among = λ k h. absurd (omega (arith, v.no_cands));
      equal = λ k h. absurd (omega (arith, v.no_cands));
    } in
    let s =
      record_candidate-Advances p.array (c ∷ cs) c p start (ground arith)
        (omega (arith, v.no_cands)) in
    let r =
      record_all-Collected p.array (c ∷ cs) cs (record_candidate p c) s.collects
        (λ d h. ground arith) (omega (arith, s.grows, v.no_cands)) in
    r.kept (s.kept (inr (omega (arith, v.two_bits c, v.no_best))))

replaced-Ready : (q : Nru) (id : ℕ) → ((j : ℕ) → q.array j ≤ 3) → Ready (replaced q id)
unfolding replaced
replaced-Ready q id v = record {
  no_cands = refl;
  no_best = refl;
  two_bits = λ j. ground (arith, v j);
}

-- From a ready policy, with at least one and fewer than 2^32 candidates, `rank` passes its assertion and
-- picks a candidate of the least value; after `replaced` on it the policy is ready again.
pub rank-Picks :
    (p : Nru) (req : MemReq) (c : ℕ) (cs : List ℕ)
    → Ready p
    → length (c ∷ cs) < u32_mod
    → (best : ℕ) × (q : Nru) × (rank p req (c ∷ cs) ≡ some (best, q)) × Picks p (c ∷ cs) best q
unfolding rank get_best_candidate
rank-Picks p req c cs v few =
    let q = record_all p (c ∷ cs) in
    let start : Collects p.array (c ∷ cs) p = record {
      same = refl;
      among = λ k h. absurd (omega (arith, v.no_cands));
      equal = λ k h. absurd (omega (arith, v.no_cands));
    } in
    let r =
      record_all-Collected p.array (c ∷ cs) (c ∷ cs) p start (λ d h. h)
        (omega (arith, v.no_cands)) in
    let full = some_recorded p c cs v few in
    let test : ltb 0 q.cand_idx ≡ true = ground arith in
    let near = mod-lt q.young_lines {m = q.cand_idx} full in
    let best = q.cand_array (q.young_lines % q.cand_idx) in
    let level = r.collects.equal (q.young_lines % q.cand_idx) near in
    (
      best,
      q,
      rw test,
      record {
        member = r.collects.among (q.young_lines % q.cand_idx) near;
        least = λ d h. omega (arith, level, r.below d h);
        same = r.collects.same;
        ready_again = replaced-Ready q best (λ j.
            let e : q.array j ≡ p.array j = ap (λ (f : Array ℕ). f j) r.collects.same in
            omega (arith, e, v.two_bits j));
      },
    )
