-- ===== src/Repl/Aging/Laws.antt =====
-- zsim/src/rrip_repl.h and ship_repl.h: what the search for a victim returns, and how it ages the
-- candidates.
use native.Mathlib.Decide.{dec_lt}
use csce614_group_project.Base.{
  ℕ, zero, suc, ◌+◌, ◌-◌, ◌≤◌, ◌<◌, ◌≡◌, ◌≢◌, refl, true, false, some, List, [], ◌∷◌, ◌==◌,
  if◌then◌else◌, Array, write, no_cand, ==_iff, inl, inr, All, elem, IsDistinct, Bool-cases, arith,
  ◌∙◌,
}
use csce614_group_project.Repl.Aging.{first_at, peak, age_all, search}

module _ {L : Type 0} (rrpv : L → ℕ) where
  first_at_below :
      (top : ℕ) (a : Array L) (cs : List ℕ)
      → peak rrpv a cs < top
      → first_at rrpv top a cs ≡ no_cand
  unfolding first_at peak
  first_at_below top a [] h = refl
  first_at_below top a (c ∷ cs) h = ground (arith, first_at_below top a cs)

  -- The search for the peak finds a candidate of that value.
  pub first_at-peak :
      (a : Array L) (cs : List ℕ)
      → cs ≢ []
      → (elem (first_at rrpv (peak rrpv a cs) a cs) cs ≡ true)
        × (rrpv (a (first_at rrpv (peak rrpv a cs) a cs)) ≡ peak rrpv a cs)
  unfolding first_at peak
  first_at-peak a [] h = absurd (h refl)
  first_at-peak a (c ∷ []) h = ground arith
  first_at-peak a (c ∷ (d ∷ cs)) h = ground (arith, first_at-peak a (d ∷ cs))

  pub peak-le :
      (top : ℕ) (a : Array L) (cs : List ℕ) → All (λ c. rrpv (a c) ≤ top) cs → peak rrpv a cs ≤ top
  unfolding peak
  peak-le top a [] h = omega arith
  peak-le top a (c ∷ cs) h = omega (arith, peak-le top a cs h.1)

  first_at-suc :
      (k : ℕ) (a b : Array L) (cs : List ℕ)
      → All (λ c. rrpv (b c) ≡ suc (rrpv (a c))) cs
      → first_at rrpv (suc k) b cs ≡ first_at rrpv k a cs
  unfolding first_at
  first_at-suc k a b [] h = refl
  first_at-suc k a b (c ∷ cs) h = ground (arith, first_at-suc k a b cs h.1)

  peak-suc :
      (a b : Array L) (cs : List ℕ)
      → cs ≢ []
      → All (λ c. rrpv (b c) ≡ suc (rrpv (a c))) cs
      → peak rrpv b cs ≡ suc (peak rrpv a cs)
  unfolding peak
  peak-suc a b [] h al = absurd (h refl)
  peak-suc a b (c ∷ []) h al = omega arith
  peak-suc a b (c ∷ (d ∷ cs)) h al = omega (arith, peak-suc a b (d ∷ cs) (λ e. cc) al.1)

  pub le-peak : (a : Array L) (cs : List ℕ) (j : ℕ) → elem j cs ≡ true → rrpv (a j) ≤ peak rrpv a cs
  unfolding peak
  le-peak a [] j h = cc
  le-peak a (c ∷ cs) j h = ground (arith, le-peak a cs j)

module _ {L : Type 0} (age : L → L) where
  -- With no candidate twice, each is aged once and nothing else is touched.
  pub age_all_lem :
      (a : Array L) (cs : List ℕ) (j : ℕ)
      → IsDistinct cs
      → age_all age a cs j ≡ (if elem j cs then age (a j) else a j)
  unfolding age_all
  age_all_lem a [] j d = refl
  age_all_lem a (c ∷ cs) j d = rw (age_all_lem (write a c (age (a c))) cs j d.1) (ground arith)

All-of_elem : (P : ℕ → Type 0) (cs : List ℕ) → ((c : ℕ) → elem c cs ≡ true → P c) → All P cs
All-of_elem P [] f = tt
All-of_elem P (c ∷ cs) f = (f c (ground arith), All-of_elem P cs (λ d h. f d (ground arith)))

-- The outcome of a search from `a` that ends at `best` with the lines `b`.
pub record Found {L : Type 0} (rrpv : L → ℕ) (top : ℕ) (a : Array L) (cs : List ℕ) (best : ℕ)
    (b : Array L) : Type 0 where
  pub picks : best ≡ first_at rrpv (peak rrpv a cs) a cs
  pub member : elem best cs ≡ true
  pub greatest : rrpv (a best) ≡ peak rrpv a cs
  pub aged : (j : ℕ) → elem j cs ≡ true → rrpv (b j) ≡ rrpv (a j) + (top - peak rrpv a cs)
  pub kept : (j : ℕ) → elem j cs ≡ false → b j ≡ a j

module _ {L : Type 0} (rrpv : L → ℕ) (age : L → L) (top : ℕ)
    (ageing : (l : L) → rrpv l < top → rrpv (age l) ≡ suc (rrpv l)) (cs : List ℕ)
    (some_cand : cs ≢ []) (distinct : IsDistinct cs) (ids : All (λ c. c < no_cand) cs) where
  below_top :
      (c : ℕ) (ds : List ℕ) → All (λ c. c < no_cand) ds → elem c ds ≡ true → (c == no_cand) ≡ false
  below_top c [] h m = cc
  below_top c (d ∷ ds) h m = ground (arith, below_top c ds h.1)

  aged_once :
      (a : Array L)
      → peak rrpv a cs < top
      → (j : ℕ) → elem j cs ≡ true
      → rrpv (age_all age a cs j) ≡ suc (rrpv (a j))
  aged_once a h j m =
      rw (age_all_lem age a cs j distinct, m) (ageing (a j) (omega (arith, le-peak rrpv a cs j m)))

  peak_aged :
      (a : Array L) → peak rrpv a cs < top → peak rrpv (age_all age a cs) cs ≡ suc (peak rrpv a cs)
  peak_aged a h = peak-suc rrpv a (age_all age a cs) cs some_cand (All-of_elem _ cs (aged_once a h))

  first_at_aged :
      (a : Array L)
      → peak rrpv a cs < top
      → first_at rrpv (suc (peak rrpv a cs)) (age_all age a cs) cs
        ≡ first_at rrpv (peak rrpv a cs) a cs
  first_at_aged a h =
      first_at-suc rrpv (peak rrpv a cs) a (age_all age a cs) cs (All-of_elem _ cs (aged_once a h))

  Found-aged :
      (a b : Array L) (best : ℕ)
      → peak rrpv a cs < top
      → Found rrpv top (age_all age a cs) cs best b
      → Found rrpv top a cs best b
  Found-aged a b best h f = record {
    picks = f.picks ∙ (rw (peak_aged a h) (first_at_aged a h));
    member = f.member;
    greatest = omega (arith, f.greatest, peak_aged a h, aged_once a h best f.member);
    aged = λ j m. omega (arith, f.aged j m, aged_once a h j m, peak_aged a h);
    kept = λ j m. f.kept j m ∙ (rw (age_all_lem age a cs j distinct, m));
  }

  -- With fuel for every round the search ends.
  pub search-Found :
      (fuel : ℕ) (a : Array L)
      → peak rrpv a cs ≤ top
      → top < peak rrpv a cs + fuel
      → (best : ℕ) × (b : Array L) × (search rrpv age fuel top a cs ≡ some (best, b))
        × Found rrpv top a cs best b
  unfolding search
  search-Found zero a le lt = absurd (omega arith)
  search-Found (suc fuel) a le lt = elim (dec_lt (peak rrpv a cs) top) [
    | yes h ↦
        let (best, b, run, f) =
          search-Found fuel (age_all age a cs) (omega (arith, peak_aged a h))
            (omega (arith, peak_aged a h)) in
        (best, b, rw (first_at_below rrpv top a cs h) run, Found-aged a b best h f)
    | no h ↦
        let e : top ≡ peak rrpv a cs = omega arith in
        let p = first_at-peak rrpv a cs some_cand in
        (
          first_at rrpv (peak rrpv a cs) a cs,
          a,
          rw (e, below_top _ cs ids p.0),
          record {
            picks = refl;
            member = p.0;
            greatest = p.1;
            aged = λ j m. omega arith;
            kept = λ j m. refl;
          },
        )
  ]

-- Aging keeps what `age` keeps at each line.
module _ {L : Type 0} (rrpv : L → ℕ) (age : L → L) (P : ℕ → L → Type 0)
    (keeps : (j : ℕ) (l : L) → P j l → P j (age l)) where
  write_keeps :
      (a : Array L) (c : ℕ) → ((j : ℕ) → P j (a j)) → (j : ℕ) → P j (write a c (age (a c)) j)
  write_keeps a c h j = elim (Bool-cases (j == c)) [
    | inl e ↦ rw (e, (==_iff j c).0 e) (keeps c (a c) (h c))
    | inr e ↦ rw e (h j)
  ]

  age_all_keeps :
      (a : Array L) (cs : List ℕ) → ((j : ℕ) → P j (a j)) → (j : ℕ) → P j (age_all age a cs j)
  unfolding age_all
  age_all_keeps a [] h j = h j
  age_all_keeps a (c ∷ cs) h j = age_all_keeps (write a c (age (a c))) cs (write_keeps a c h) j

  pub search_keeps :
      (fuel top : ℕ) (a b : Array L) (cs : List ℕ) (best : ℕ)
      → search rrpv age fuel top a cs ≡ some (best, b)
      → ((j : ℕ) → P j (a j))
      → (j : ℕ) → P j (b j)
  unfolding search
  search_keeps zero top a b cs best e h j = cc
  search_keeps (suc fuel) top a b cs best e h j =
      elim (Bool-cases (first_at rrpv top a cs == no_cand)) [
        | inl none_at ↦
            search_keeps fuel top (age_all age a cs) b cs best (rw (none_at) at e)
              (age_all_keeps a cs h) j
        | inr found ↦ let same : a ≡ b = ground arith in rw (← same) (h j)
      ]
