-- ===== src/Repl/Lfu/Victim.antt =====
-- zsim/src/repl_policies.h, LFUReplPolicy: its victim against validity and sharing, which come before
-- frequency.
use mathlib.Core.Path.{ap₂}
use csce614_group_project.Base.{
  ℕ, ◌+◌, ◌≤◌, ◌≡◌, refl, true, false, ◌||◌, none, some, List, [], ◌∷◌, ltb, if◌then◌else◌, elem,
  arith, Bool-cases, inl, inr, ◌⊎◌, ◌∙◌, ap,
}
use csce614_group_project.Hierarchy.{MemReq}
use csce614_group_project.Repl.Lru.{Lines}
use csce614_group_project.Repl.Lfu.{
  Lfu, less_than, shared_less, rank_of, record_candidate, record_all, rank, is_none, with_state,
}

-- 0: invalid and unshared; 1: invalid and shared; 2: valid and unshared; 3: valid and shared.
unfoldable pub class_of : Lines → ℕ → ℕ
class_of ctrl id =
    (if ctrl.is_valid id then 2 else 0) + (if ltb 0 (ctrl.num_sharers id) then 1 else 0)

module _ (ctrl : Lines) where
  less-class :
      (p : Lfu) (a b now : ℕ)
      → less_than (rank_of ctrl p a) (rank_of ctrl p b) now ≡ true
      → class_of ctrl a ≤ class_of ctrl b
  unfolding class_of less_than rank_of shared_less
  less-class p a b now h = ground arith

  not_less-class :
      (p : Lfu) (a b now : ℕ)
      → less_than (rank_of ctrl p a) (rank_of ctrl p b) now ≡ false
      → class_of ctrl b ≤ class_of ctrl a
  unfolding class_of less_than rank_of shared_less
  not_less-class p a b now h = ground arith

  -- The best candidate so far, with its rank.
  record Holds (p : Lfu) (b : ℕ) : Type 0 where
    best : p.best_candidate ≡ some b
    ranked : p.best_rank ≡ rank_of ctrl p b

  -- What the loop over `cs` makes of it.
  record Ends (b : ℕ) (cs : List ℕ) (q : Lfu) (r : ℕ) : Type 0 where
    best : q.best_candidate ≡ some r
    among : (elem r cs ≡ true) ⊎ (r ≡ b)
    below : class_of ctrl r ≤ class_of ctrl b
    least : (c : ℕ) → elem c cs ≡ true → class_of ctrl r ≤ class_of ctrl c

  test_on :
      (p : Lfu) (b c : ℕ)
      → Holds p b
      → (is_none p.best_candidate || less_than (rank_of ctrl p c) p.best_rank p.timestamp)
        ≡ less_than (rank_of ctrl p c) (rank_of ctrl p b) p.timestamp
  test_on p b c h =
      ap₂ (λ o r. is_none o || less_than (rank_of ctrl p c) r p.timestamp) h.best h.ranked

  taken :
      (p : Lfu) (b c : ℕ)
      → Holds p b
      → less_than (rank_of ctrl p c) (rank_of ctrl p b) p.timestamp ≡ true
      → Holds (record_candidate ctrl p c) c
  unfolding record_candidate rank_of
  taken p b c h e = rw (test_on p b c h ∙ e) (record { best = refl; ranked = refl })

  passed :
      (p : Lfu) (b c : ℕ)
      → Holds p b
      → less_than (rank_of ctrl p c) (rank_of ctrl p b) p.timestamp ≡ false
      → Holds (record_candidate ctrl p c) b
  unfolding record_candidate
  passed p b c h e = rw (test_on p b c h ∙ e) h

  record_all-Ends :
      (p : Lfu) (b : ℕ) (cs : List ℕ) → Holds p b → (r : ℕ) × Ends b cs (record_all ctrl p cs) r
  unfolding record_all
  record_all-Ends p b [] h =
      (b, record { best = h.best; among = inr refl; below = omega arith; least = λ c m. cc })
  record_all-Ends p b (c ∷ cs) h =
      elim (Bool-cases (less_than (rank_of ctrl p c) (rank_of ctrl p b) p.timestamp)) [
        | inl e ↦
            let (r, s) = record_all-Ends (record_candidate ctrl p c) c cs (taken p b c h e) in
            let low = less-class p c b p.timestamp e in
            (
              r,
              record {
                best = s.best;
                among = ground (arith, s.among);
                below = omega (arith, low, s.below);
                least = λ d m. ground (arith, s.below, s.least d);
              },
            )
        | inr e ↦
            let (r, s) = record_all-Ends (record_candidate ctrl p c) b cs (passed p b c h e) in
            let low = not_less-class p c b p.timestamp e in
            (
              r,
              record {
                best = s.best;
                among = ground (arith, s.among);
                below = s.below;
                least = λ d m. ground (arith, s.below, low, s.least d);
              },
            )
      ]

  first_taken : (p : Lfu) (c : ℕ) → p.best_candidate ≡ none → Holds (record_candidate ctrl p c) c
  unfolding record_candidate rank_of
  first_taken p c h =
      let test : (is_none p.best_candidate || less_than (rank_of ctrl p c) p.best_rank p.timestamp)
          ≡ true =
        ap (λ o. is_none o || less_than (rank_of ctrl p c) p.best_rank p.timestamp) h in
      rw test (record { best = refl; ranked = refl })

  -- Where no candidate is recorded yet, `rank` on at least one candidate passes its assertion. Its victim
  -- is a candidate, and no candidate is of a lower class: an invalid line goes before a valid one,
  -- and among these an unshared one before a shared one.
  pub rank-class :
      (p : Lfu) (req : MemReq) (c : ℕ) (cs : List ℕ) (d : ℕ)
      → p.best_candidate ≡ none
      → elem d (c ∷ cs) ≡ true
      → (best : ℕ) × (q : Lfu) × (rank ctrl p req (c ∷ cs) ≡ some (best, q))
        × (elem best (c ∷ cs) ≡ true)
        × (class_of ctrl best ≤ class_of ctrl d)
  unfolding rank record_all
  rank-class p req c cs d clean mem =
      let (r, s) = record_all-Ends (record_candidate ctrl p c) c cs (first_taken p c clean) in
      (
        r,
        record_all ctrl (record_candidate ctrl p c) cs,
        ap (with_state ctrl (record_all ctrl (record_candidate ctrl p c) cs)) s.best,
        ground (arith, s.among),
        ground (arith, s.below, s.least d),
      )
