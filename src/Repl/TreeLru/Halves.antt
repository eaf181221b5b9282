-- ===== src/Repl/TreeLru/Halves.antt =====
-- zsim/src/repl_policies.h, TreeLRUReplPolicy::getBestCandidate: the search by halves.
use csce614_group_project.Base.{
  ℕ, zero, suc, ◌+◌, ◌-◌, ◌/◌, ◌≤◌, ◌<◌, ◌≡◌, ◌≢◌, ◌==◌, ap, sym, ◌⊎◌, refl, inl, inr, true, some,
  max, ltb, Bool-cases, arith,
}
use csce614_group_project.Repl.TreeLru.{TreeLru, latest, halve, get_best_candidate}

abbrev used : TreeLru → ℕ → ℕ
used p k = p.lru.array (p.cand_array k)

latest-from : (p : TreeLru) (n i t : ℕ) → t ≤ latest p n i t
unfolding latest
latest-from p zero i t = omega arith
latest-from p (suc n) i t = omega (arith, latest-from p n (suc i) (max t (used p i)))

latest-above : (p : TreeLru) (n i t k : ℕ) → i ≤ k → k < i + n → used p k ≤ latest p n i t
unfolding latest
latest-above p zero i t k l h = absurd (omega arith)
latest-above p (suc n) i t k l h = elim (Bool-cases (i == k)) [
  | inl q ↦
      let e : i ≡ k = ground (arith, q) in
      let b = latest-from p n (suc i) (max t (used p i)) in
      let u : used p k ≡ used p i = ap (used p) (sym e) in omega (arith, b, u)
  | inr q ↦
      let ne : i ≢ k = ground (arith, q) in
      latest-above p n (suc i) (max t (used p i)) k (omega (arith, ne)) (omega arith)
]

latest-at :
    (p : TreeLru) (n i t : ℕ)
    → (latest p n i t ≤ t) ⊎ ((k : ℕ) × (i ≤ k) × (k < i + n) × (latest p n i t ≤ used p k))
unfolding latest
latest-at p zero i t = inl (omega arith)
latest-at p (suc n) i t = elim (latest-at p n (suc i) (max t (used p i))) [
  | inl z ↦ elim (Bool-cases (ltb t (used p i))) [
    | inl q ↦
        let l : t < used p i = ground (arith, q) in
        inr (i, omega arith, omega arith, omega (arith, z, l))
    | inr q ↦ let l : used p i ≤ t = ground (arith, q) in inl (omega (arith, z, l))
  ]
  | inr (k, l1, l2, l3) ↦ inr (k, omega (arith, l1), omega (arith, l2), l3)
]

-- a candidate between `start` and `stop`, and another that was used no earlier if there are several
pub record Chosen (p : TreeLru) (start stop id : ℕ) : Type 0 where
  pub idx : ℕ
  pub from : start ≤ idx
  pub below : idx < stop
  pub at : id ≡ p.cand_array idx
  pub other :
      1 < stop - start → (j : ℕ) × (start ≤ j) × (j < stop) × (j ≢ idx) × (used p idx ≤ used p j)

differ : (a e c f i j : ℕ) → (e ≤ c) ⊎ (f ≤ a) → a ≤ i → i < e → c ≤ j → j < f → j ≢ i
differ a e c f i j (inl h) l1 l2 l3 l4 = λ q. absurd (omega (arith, q))
differ a e c f i j (inr h) l1 l2 l3 l4 = λ q. absurd (omega (arith, q))

-- A choice from the half from `a` to `e` is one from both, where the half from `c` to `f` was used no
-- earlier.
half-Chosen :
    (p : TreeLru) (start stop a e c f id : ℕ)
    → (s : Chosen p a e id) → latest p (e - a) a 0 ≤ latest p (f - c) c 0
    → c < f
    → start ≤ a
    → e ≤ stop
    → start ≤ c
    → f ≤ stop
    → (e ≤ c) ⊎ (f ≤ a)
    → Chosen p start stop id
half-Chosen p start stop a e c f id s le some_f l1 l2 l3 l4 apart = record {
  idx = s.idx;
  from = omega (arith, s.from);
  below = omega (arith, s.below);
  at = s.at;
  other = λ h.
      let bound = latest-above p (e - a) a 0 s.idx s.from (omega (arith, s.from, s.below)) in
      elim (latest-at p (f - c) c 0) [
        | inl z ↦ (
          c,
          l3,
          omega arith,
          differ a e c f s.idx c apart s.from s.below (omega arith) some_f,
          omega (arith, bound, z),
        )
        | inr (k, m1, m2, m3) ↦
            let low : k < f = omega (arith, m1, m2) in
            (
              k,
              omega (arith, m1),
              omega (arith, low),
              differ a e c f s.idx k apart s.from s.below m1 low,
              omega (arith, bound, m3),
            )
      ];
}

-- Given one round of fuel more than there are candidates between `start` and `stop`, at least one, the
-- search ends at one of them, and if there are several, another of them was used no earlier.
halve-Chosen :
    (fuel : ℕ) (p : TreeLru) (start stop : ℕ)
    → start < stop
    → stop - start ≤ fuel
    → (id : ℕ) × (halve fuel p start stop ≡ some id) × Chosen p start stop id
unfolding halve
halve-Chosen zero p start stop l enough = absurd (omega arith)
halve-Chosen (suc fuel) p start stop l enough =
    let pivot = start + (stop - start) / 2 in
    let t1 = latest p (pivot - start) start 0 in
    let t2 = latest p (stop - pivot) pivot 0 in
    elim (Bool-cases (ltb 1 (stop - start))) [
      | inr q ↦ (
        p.cand_array start,
        (rw q refl),
        record {
          idx = start;
          from = omega arith;
          below = l;
          at = refl;
          other = λ h. absurd (ground (arith, q, h));
        },
      )
      | inl q ↦
          let several : 1 < stop - start = ground (arith, q) in
          elim (Bool-cases (ltb t2 t1)) [
            | inl r ↦
                let le : t2 ≤ t1 = ground (arith, r) in
                let (id, e, s) = halve-Chosen fuel p pivot stop (omega arith) (omega arith) in
                (
                  id,
                  (rw (q, r) e),
                  half-Chosen p start stop pivot stop start pivot id s le (omega arith)
                      (omega arith) (omega arith) (omega arith) (omega arith) (inr (omega arith)),
                )
            | inr r ↦
                let le : t1 ≤ t2 = ground (arith, r) in
                let (id, e, s) = halve-Chosen fuel p start pivot (omega arith) (omega arith) in
                (
                  id,
                  (rw (q, r) e),
                  half-Chosen p start stop start pivot pivot stop id s le (omega arith)
                      (omega arith) (omega arith) (omega arith) (omega arith) (inl (omega arith)),
                )
          ]
    ]

-- Where all candidates are recorded, at least one, and the fuel is their number, the choice succeeds with
-- one of them, and if there are several, another of them was used no earlier.
pub get_best_candidate-Chosen :
    (p : TreeLru)
    → p.cand_idx ≡ p.num_cands
    → 0 < p.num_cands
    → (id : ℕ) × (get_best_candidate p.num_cands p ≡ some id) × Chosen p 0 p.num_cands id
unfolding get_best_candidate
get_best_candidate-Chosen p full some_cands =
    let (id, e, s) = halve-Chosen p.num_cands p 0 p.num_cands some_cands (omega arith) in
    let full' : (p.cand_idx == p.num_cands) ≡ true = ground (arith, full) in (id, (rw full' e), s)
