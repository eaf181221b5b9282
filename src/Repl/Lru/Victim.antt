-- ===== src/Repl/Lru/Victim.antt =====
-- zsim/src/repl_policies.h, LRUReplPolicy: its victim against the scores, of which the code keeps 32 bits.
use native.Mathlib.Decide.{dec_lt}
use csce614_group_project.Base.{
  ℕ, ◌+◌, ◌*◌, ◌≤◌, ◌<◌, ◌≡◌, ◌≢◌, refl, Bool, true, false, List, [], ◌∷◌, u32_mod, no_cand, ltb,
  if◌then◌else◌, min, elem, arith, Bool-cases, inl, inr, ◌⊎◌,
}
use csce614_group_project.Hierarchy.{MemReq}
use csce614_group_project.Repl.Lru.{Lru, Lines, short_score, least, rank}

-- `r` is a candidate, and every candidate before it has a larger `s`.
abbrev pub IsFirst : (ℕ → ℕ) → ℕ → List ℕ → Type 0
IsFirst s r [] = ⊥
IsFirst s r (c ∷ cs) = (r ≡ c) ⊎ ((s r < s c) × IsFirst s r cs)

-- `r` is the first candidate of the least `s`.
pub record IsLeast (s : ℕ → ℕ) (cs : List ℕ) (r : ℕ) : Type 0 where
  pub among : elem r cs ≡ true
  pub smallest : (c : ℕ) → elem c cs ≡ true → s r ≤ s c
  pub first : IsFirst s r cs

record Goes (s : ℕ → ℕ) (best : ℕ) (cs : List ℕ) (r : ℕ) : Type 0 where
  among : (elem r cs ≡ true) ⊎ (r ≡ best)
  below : s r ≤ s best
  smallest : (c : ℕ) → elem c cs ≡ true → s r ≤ s c
  first : (r ≡ best) ⊎ ((s r < s best) × IsFirst s r cs)

taken :
    (s : ℕ → ℕ) (c : ℕ) (cs : List ℕ) (r : ℕ)
    → (r ≡ c) ⊎ ((s r < s c) × IsFirst s r cs)
    → IsFirst s r (c ∷ cs)
taken s c cs r h = h

passed :
    (s : ℕ → ℕ) (best c : ℕ) (cs : List ℕ) (r : ℕ)
    → s best ≤ s c
    → (r ≡ best) ⊎ ((s r < s best) × IsFirst s r cs)
    → (r ≡ best) ⊎ ((s r < s best) × IsFirst s r (c ∷ cs))
passed s best c cs r le (inl e) = inl e
passed s best c cs r le (inr (lt, f)) = inr (lt, inr (omega (arith, lt), f))

least-Goes : (s : ℕ → ℕ) (best : ℕ) (cs : List ℕ) → Goes s best cs (least s best (s best) cs)
unfolding least
least-Goes s best [] = record {
  among = inr refl;
  below = omega arith;
  smallest = λ c h. cc;
  first = inl refl;
}
least-Goes s best (c ∷ cs) = elim (Bool-cases (ltb (s c) (s best))) [
  | inl e ↦
      let g = least-Goes s c cs in
      let m : min (s c) (s best) ≡ s c = ground arith in
      rw (e, m)
        (record {
          among = ground (arith, g.among);
          below = ground (arith, g.below);
          smallest = λ d h. ground (arith, g.below, g.smallest d);
          first = inr (ground (arith, g.below), taken s c cs _ g.first);
        })
  | inr e ↦
      let g = least-Goes s best cs in
      let m : min (s c) (s best) ≡ s best = ground arith in
      rw (e, m)
        (record {
          among = ground (arith, g.among);
          below = g.below;
          smallest = λ d h. ground (arith, g.below, g.smallest d);
          first = passed s best c cs _ (ground arith) g.first;
        })
]

least_first :
    (s : ℕ → ℕ) (c best top : ℕ) (cs : List ℕ)
    → s c < top
    → least s best top (c ∷ cs) ≡ least s c (s c) cs
unfolding least
least_first s c best top cs h =
    let e : ltb (s c) top ≡ true = ground arith in
    let m : min (s c) top ≡ s c = omega arith in rw (e, m)

pub least-IsLeast :
    (s : ℕ → ℕ) (top best : ℕ) (cs : List ℕ)
    → ((c : ℕ) → s c < top)
    → cs ≢ []
    → IsLeast s cs (least s best top cs)
least-IsLeast s top best [] small ne = absurd (ne refl)
least-IsLeast s top best (c ∷ cs) small ne =
    let g : Goes s c cs (least s best top (c ∷ cs)) =
      rw (least_first s c best top cs (small c)) (least-Goes s c cs) in
    record {
      among = ground (arith, g.among);
      smallest = λ d h. ground (arith, g.below, g.smallest d);
      first = taken s c cs _ g.first;
    }

-- With at least one candidate, the victim is the first candidate of the least score, in the 32 bits
-- that are compared.
pub rank-IsLeast :
    (aware : Bool) (ctrl : Lines) (p : Lru) (req : MemReq) (cs : List ℕ)
    → cs ≢ []
    → IsLeast (short_score aware ctrl p) cs (rank aware ctrl p req cs)
unfolding rank short_score
rank-IsLeast aware ctrl p req cs ne =
    least-IsLeast (short_score aware ctrl p) 18446744073709551615 no_cand cs (λ c. omega arith) ne

module _ (ctrl : Lines) (p : Lru)
    (fits : (d : ℕ) → ctrl.num_sharers d * p.timestamp + p.array d < u32_mod) where
  abbrev valid_bit : ℕ → ℕ
  valid_bit d = if ctrl.is_valid d then 1 else 0

  -- No wrap-around: the score is sharers first, then recency of a valid line.
  short_score_lem :
      (d : ℕ)
      → short_score true ctrl p d
        ≡ ctrl.num_sharers d * p.timestamp + (if ctrl.is_valid d then p.array d else 0)
  unfolding short_score
  short_score_lem d = elim (Bool-cases (ctrl.is_valid d)) [
    | inl e ↦ rw e (omega (arith, fits d))
    | inr e ↦ rw e (omega (arith, fits d))
  ]

one_share : (n t : ℕ) → 0 < n → t ≤ n * t
one_share n t h = grind arith

-- Where no score wraps: an unshared line goes before a shared one, and an invalid unshared line
-- before every valid line that was used.
pub rank_prefers :
    (ctrl : Lines) (p : Lru) (req : MemReq) (cs : List ℕ) (c : ℕ)
    → elem c cs ≡ true
    → ((d : ℕ) → ctrl.num_sharers d * p.timestamp + p.array d < u32_mod)
    → ((d : ℕ) → p.array d < p.timestamp)
    → ctrl.num_sharers c ≡ 0
    → let r = rank true ctrl p req cs in
      (ctrl.num_sharers r ≡ 0)
      × ((ctrl.is_valid c ≡ false) → (ctrl.is_valid r ≡ true) → p.array r ≡ 0)
rank_prefers ctrl p req cs c mem fits below alone =
    let r = rank true ctrl p req cs in
    let l = (rank-IsLeast true ctrl p req cs (λ e. absurd (none_in e))).smallest c mem in
    let low = short_score_lem ctrl p fits c in
    let high = short_score_lem ctrl p fits r in
    let zero_c : ctrl.num_sharers c * p.timestamp ≡ 0 = rw alone (omega arith) in
    (
      elim (dec_lt 0 (ctrl.num_sharers r)) [
        | yes h ↦ absurd (
            ground
              (arith, l, low, high, zero_c, below c, one_share (ctrl.num_sharers r) p.timestamp h))
        | no h ↦ omega arith
      ],
      λ invalid valid. ground (arith, l, low, high, zero_c),
    )
  where
    none_in : cs ≡ [] → ⊥
    none_in e = let m : elem c [] ≡ true = rw e at mem in cc
