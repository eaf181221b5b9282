-- ===== src/Repl/WayPart/Victim.antt =====
-- zsim/src/part_repl_policies.h: the line that WayPartReplPolicy gives up for an incoming one.
use csce614_group_project.Base.{
  ℕ, suc, ◌+◌, ◌<◌, ◌≤◌, ◌≡◌, ◌≢◌, ◌⊎◌, ◌∙◌, refl, ap, inl, inr, Bool, true, false, ◌||◌, Option,
  none, some, List, [], ◌∷◌, All, elem, length, add32, ltb, ◌==◌, if◌then◌else◌, Bool-cases, arith,
}
use csce614_group_project.Hierarchy.{MemReq}
use csce614_group_project.Repl.WayPart.{
  is_none, WayPart, start_replacement, beats, better, record_candidate, record_all,
  get_best_candidate, rank,
}

in_front : (b' id : ℕ) (xs : List ℕ) → (b' ≡ id) ⊎ (elem b' xs ≡ true) → elem b' (id ∷ xs) ≡ true
in_front b' id xs h = ground arith

further :
    (b' b id : ℕ) (xs : List ℕ)
    → (b' ≡ b) ⊎ (elem b' xs ≡ true)
    → (b' ≡ b) ⊎ (elem b' (id ∷ xs) ≡ true)
further b' b id xs (inl e) = inl e
further b' b id xs (inr h) = inr (in_front b' id xs (inr h))

module _ {M : Type 0} where
  -- the incoming line may go to this way
  abbrev pub fillable : WayPart M → ℕ → Bool
  fillable r way = r.test_mode || r.way_part_index way == r.incoming_line_part

  -- the candidates at such ways, where the first one is at way `k`
  abbrev pub fill_ids : WayPart M → ℕ → List ℕ → List ℕ
  fill_ids r k [] = []
  fill_ids r k (id ∷ ids) =
      if fillable r k then id ∷ fill_ids r (suc k) ids else fill_ids r (suc k) ids

  -- lines of the incoming line's own partition are kept before the others, but not in the test mode
  abbrev pub class : WayPart M → ℕ → ℕ
  class r id = if r.test_mode then 0 else (if (r.array id).p == r.incoming_line_part then 1 else 0)

  -- of a lower class, or as old in the same class
  abbrev pub Precedes : WayPart M → ℕ → ℕ → Type 0
  Precedes r a b =
      (class r a < class r b) ⊎ ((class r a ≡ class r b) × ((r.array a).ts ≤ (r.array b).ts))

  Precedes-refl : (r : WayPart M) (a : ℕ) → Precedes r a a
  Precedes-refl r a = inr (refl, omega arith)

  Precedes-trans : (r : WayPart M) (a b c : ℕ) → Precedes r a b → Precedes r b c → Precedes r a c
  Precedes-trans r a b c (inl l) (inl l') = inl (omega arith)
  Precedes-trans r a b c (inl l) (inr (e, t)) = inl (omega arith)
  Precedes-trans r a b c (inr (e, t)) (inl l') = inl (omega arith)
  Precedes-trans r a b c (inr (e, t)) (inr (e', t')) = inr (e ∙ e', omega arith)

  beats-Precedes :
      (r : WayPart M) (c b : ℕ) → beats r (r.array c) (r.array b) ≡ true → Precedes r c b
  unfolding beats
  beats-Precedes r c b h = ground arith

  not_beats-Precedes :
      (r : WayPart M) (c b : ℕ) → beats r (r.array c) (r.array b) ≡ false → Precedes r b c
  unfolding beats
  not_beats-Precedes r c b h = ground arith

  -- the best of the candidates from way `k` on
  choose : WayPart M → ℕ → Option ℕ → List ℕ → Option ℕ
  choose r k best [] = best
  choose r k best (id ∷ ids) =
      choose r (suc k) (if fillable r k then some (better r id best) else best) ids

  All-preceded :
      (r : WayPart M) (a b : ℕ) (ids : List ℕ)
      → Precedes r a b
      → All (Precedes r b) ids
      → All (Precedes r a) ids
  All-preceded r a b [] l h = tt
  All-preceded r a b (id ∷ ids) l h = (Precedes-trans r a b id l h.0, All-preceded r a b ids l h.1)

  abbrev Chosen : WayPart M → ℕ → List ℕ → Option ℕ → Type 0
  Chosen r b ids o =
      (b' : ℕ) × (o ≡ some b')
      × ((b' ≡ b) ⊎ (elem b' ids ≡ true))
      × Precedes r b' b
      × All (Precedes r b') ids

  choose_from :
      (r : WayPart M) (k b : ℕ) (ids : List ℕ)
      → Chosen r b (fill_ids r k ids) (choose r k (some b) ids)
  unfolding choose better
  choose_from r k b [] = (b, refl, inl refl, Precedes-refl r b, tt)
  choose_from r k b (id ∷ ids) = elim (Bool-cases (fillable r k)) [
    | inr p ↦ rw p (choose_from r (suc k) b ids)
    | inl p ↦ elim (Bool-cases (beats r (r.array id) (r.array b))) [
      | inl q ↦
          let (b', e, from, l, all) = choose_from r (suc k) id ids in
          rw (p, q)
            (
              b',
              e,
              inr (in_front b' id _ from),
              Precedes-trans r b' id b l (beats-Precedes r id b q),
              (l, all),
            )
      | inr q ↦
          let (b', e, from, l, all) = choose_from r (suc k) b ids in
          rw (p, q)
            (
              b',
              e,
              further b' b id _ from,
              l,
              (Precedes-trans r b' b id l (not_beats-Precedes r id b q), all),
            )
    ]
  ]

  choose_first :
      (r : WayPart M) (k : ℕ) (ids : List ℕ)
      → fill_ids r k ids ≢ []
      → (b : ℕ) × (choose r k none ids ≡ some b)
        × (elem b (fill_ids r k ids) ≡ true)
        × All (Precedes r b) (fill_ids r k ids)
  unfolding choose better
  choose_first r k [] some_way = absurd (some_way refl)
  choose_first r k (id ∷ ids) some_way = elim (Bool-cases (fillable r k)) [
    | inr p ↦ rw p (choose_first r (suc k) ids (λ e. some_way (rw p e)))
    | inl p ↦
        let (b, e, from, l, all) = choose_from r (suc k) id ids in
        rw p (b, e, in_front b id _ from, (l, all))
  ]

  -- the policy while the candidates are recorded
  abbrev recorded : WayPart M → ℕ → Option ℕ → WayPart M
  recorded r k o = record r { cand_idx = k; best_id = o }

  recorded-better :
      (r : WayPart M) (k id : ℕ) (before o : Option ℕ)
      → better (recorded r k before) id o ≡ better r id o
  unfolding better beats
  recorded-better r k id before none = refl
  recorded-better r k id before (some best) = refl

  record_all-choose :
      (r : WayPart M) (k : ℕ) (o : Option ℕ) (ids : List ℕ)
      → k + length ids ≤ r.ways
      → r.ways < 4294967296
      → record_all (recorded r k o) ids ≡ some (recorded r (k + length ids) (choose r k o ids))
  unfolding record_all record_candidate choose
  record_all-choose r k o [] fits small = let e : k + 0 ≡ k = omega arith in rw e refl
  record_all-choose r k o (id ∷ ids) fits small =
      let p : ltb k r.ways ≡ true = ground arith in
      let e : add32 k 1 ≡ suc k = omega arith in
      let e' : k + suc (length ids) ≡ suc k + length ids = omega arith in
      rw (p, e, e', recorded-better r k id o o)
        (record_all-choose r (suc k) _ ids (omega arith) small)

  as_recorded : (r : WayPart M) → r.cand_idx ≡ 0 → r.best_id ≡ none → r ≡ recorded r 0 none
  as_recorded r e e' = λ i. recorded r (e i) (e' i)

  -- With no replacement under way and no more candidates than ways: where some candidate is at a way
  -- that the incoming line may go to, the replacement finds one of those candidates: one of another
  -- partition if there is any, and the least recently used of them; in the test mode the least
  -- recently used of all of them.
  pub rank-Precedes :
      (get_partition : MemReq → ℕ) (r : WayPart M) (req : MemReq) (cands : List ℕ)
      → r.cand_idx ≡ 0
      → r.best_id ≡ none
      → length cands ≤ r.ways
      → r.ways < 4294967296
      → let r₁ = record r {
        incoming_line_part = get_partition req;
        incoming_line_addr = req.line_addr;
      } in
        fill_ids r₁ 0 cands ≢ []
        → (best : ℕ) × (r' : WayPart M) × (rank get_partition r req cands ≡ some (best, r'))
          × (elem best (fill_ids r₁ 0 cands) ≡ true)
          × All (Precedes r₁ best) (fill_ids r₁ 0 cands)
  unfolding rank start_replacement get_best_candidate
  rank-Precedes get_partition r req cands e e' fits small some_way =
      let r₁ : WayPart M = record r {
        incoming_line_part = get_partition req;
        incoming_line_addr = req.line_addr;
      } in
      let (b, found, mem, all) = choose_first r₁ 0 cands some_way in
      let t : (r.cand_idx == 0) ≡ true = ground (arith, e) in
      let same : record_all r₁ cands ≡ some (recorded r₁ (0 + length cands) (some b)) =
        ap (λ q. record_all q cands) (as_recorded r₁ e e')
        ∙ record_all-choose r₁ 0 none cands (omega arith) small
        ∙ ap (λ o. some (recorded r₁ (0 + length cands) o)) found in
      let u : is_none r.best_id ≡ true = rw e' refl in rw (t, u, same) (b, _, refl, mem, all)
