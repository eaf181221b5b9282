-- ===== src/Repl/Optgen/Walk.antt =====
-- zsim/src/hawkeye_repl.h: the three loops of `cache_access`, on one set's slots of a ring.
use csce614_group_project.Base.{
  ℕ, zero, suc, ◌+◌, ◌≤◌, ◌<◌, ◌≡◌, ◌≢◌, refl, Bool, true, false, arith, add32, u32_mod, ◌==◌, ltb,
  leb, if◌then◌else◌, ◌∙◌, ◌⊎◌, inl, inr, ◌&&◌, some, Array, write, Bool-cases, ==_iff,
}
use csce614_group_project.Repl.Optgen.{find_back, has_room, occupy}
use csce614_group_project.Repl.Optgen.Ring.{
  IsRing, back, forward, wrap_index-back, wrap_index-forward, ahead, ahead-back, forward-ahead,
  ahead_inj, to_inj,
}

-- The slots of one set do not wrap in 32 bits.
pub record IsRow (size offset hist_idx : ℕ) : Type 0 where
  pub ring : IsRing size
  pub fits : offset + size ≤ u32_mod
  pub inside : hist_idx < size

-- The slot `k` lies from `i` on and before `h`.
abbrev pub between : ℕ → ℕ → ℕ → ℕ → Bool
between size i h k = ltb 0 (ahead size k h) && leb (ahead size k h) (ahead size i h)

module _ (size offset h : ℕ) where
  -- Where the search back from `i` stops: at a slot with the address or at `h`, and at no older
  -- slot than it must.
  pub record Stops (history : Array ℕ) (address i idx : ℕ) : Type 0 where
    pub inside : idx < size
    pub here : (idx ≡ h) ⊎ (history (offset + idx) ≡ address)
    pub newest :
        (k : ℕ)
        → k < size
        → ahead size h idx < ahead size h k
        → ahead size h k ≤ ahead size h i
        → history (offset + k) ≢ address

  -- `has_room` answers whether every slot from `i` up to `h` is below the capacity.
  abbrev pub Room : ℕ → Array ℕ → ℕ → Bool → Type 0
  Room ways occupancy i true =
      (k : ℕ) → k < size → between size i h k ≡ true → occupancy (offset + k) < ways
  Room ways occupancy i false =
      (k : ℕ) × (k < size) × (between size i h k ≡ true) × (ways ≤ occupancy (offset + k))

  -- `occupy` counts one more line in every slot from `i` up to `h`, and touches nothing else.
  pub record Occupied (a : Array ℕ) (i : ℕ) (b : Array ℕ) : Type 0 where
    pub counted :
        (k : ℕ)
        → k < size
        → b (offset + k) ≡ (if between size i h k then add32 (a (offset + k)) 1 else a (offset + k))
    pub outside : (j : ℕ) → (j < offset) ⊎ (offset + size ≤ j) → b j ≡ a j

module _ (size offset h : ℕ) (row : IsRow size offset h) where
  pub slot : (k : ℕ) → k < size → add32 offset k ≡ offset + k
  slot k p = omega (arith, row.fits)

  back-lt : (i : ℕ) → i < size → back size i < size
  back-lt i p = ground arith

  forward-lt : (i : ℕ) → i < size → forward size i < size
  forward-lt i p = ground arith

  pub find_back-Stops :
      (history : Array ℕ) (address f i : ℕ)
      → i < size
      → ahead size h i < f
      → (idx : ℕ) × (find_back f size history offset address h i ≡ some idx)
        × Stops size offset h history address i idx
  unfolding find_back
  find_back-Stops history address zero i p lt = absurd (omega arith)
  find_back-Stops history address (suc f) i p lt = elim (Bool-cases (i == h)) [
    | inl e ↦ (
      i,
      rw e,
      record {
        inside = p;
        here = inl ((==_iff i h).0 e);
        newest = λ k q a b. absurd (omega arith);
      },
    )
    | inr ne ↦ elim (Bool-cases (history (add32 offset i) == address)) [
      | inl e ↦ (
        i,
        rw (ne, e),
        record {
          inside = p;
          here = inr (ground (arith, slot i p));
          newest = λ k q a b. absurd (omega arith);
        },
      )
      | inr miss ↦
          let step = ahead-back size h row.inside i p (ground arith) in
          let (idx, run, s) =
            find_back-Stops history address f (back size i) (back-lt i p) (omega arith) in
          (
            idx,
            rw (ne, miss, wrap_index-back size i row.ring p) run,
            record {
              inside = s.inside;
              here = s.here;
              newest = λ k q a b. elim (Bool-cases (k == i)) [
                | inl same ↦ ground (arith, slot i p)
                | inr other ↦ s.newest k q a (ground (arith, ahead_inj size h row.inside k i q p))
              ];
            },
          )
    ]
  ]

  Room-forward :
      (ways : ℕ) (occupancy : Array ℕ) (i : ℕ) (b : Bool)
      → i < size
      → i ≢ h
      → occupancy (offset + i) < ways
      → Room size offset h ways occupancy (forward size i) b
      → Room size offset h ways occupancy i b
  Room-forward ways occupancy i true p ne free r = λ k q w. elim (Bool-cases (k == i)) [
    | inl same ↦ let e : k ≡ i = (==_iff k i).0 same in rw e free
    | inr other ↦
        r k q
          (ground (arith, forward-ahead size h row.inside i p ne, to_inj size h row.inside k i q p))
  ]
  Room-forward ways occupancy i false p ne free (k, q, w, full) =
      (k, q, ground (arith, forward-ahead size h row.inside i p ne), full)

  pub has_room-Room :
      (ways : ℕ) (occupancy : Array ℕ) (f i : ℕ)
      → i < size
      → ahead size i h < f
      → (b : Bool) × (has_room f size ways occupancy offset h i ≡ some b)
        × Room size offset h ways occupancy i b
  unfolding has_room
  has_room-Room ways occupancy zero i p lt = absurd (omega arith)
  has_room-Room ways occupancy (suc f) i p lt = elim (Bool-cases (i == h)) [
    | inl e ↦ (true, rw e, λ k q w. absurd (ground arith))
    | inr ne ↦ elim (Bool-cases (leb ways (occupancy (add32 offset i)))) [
      | inl full ↦ (false, rw (ne, full), (i, p, ground arith, ground (arith, slot i p)))
      | inr free ↦
          let step = forward-ahead size h row.inside i p (ground arith) in
          let (b, run, r) =
            has_room-Room ways occupancy f (forward size i) (forward-lt i p) (omega arith) in
          (
            b,
            rw (ne, free, wrap_index-forward size i row.ring p) run,
            Room-forward ways occupancy i b p (ground arith) (ground (arith, slot i p)) r,
          )
    ]
  ]

  pub occupy-Occupied :
      (a : Array ℕ) (f i : ℕ)
      → i < size
      → ahead size i h < f
      → (b : Array ℕ) × (occupy f size a offset h i ≡ some b) × Occupied size offset h a i b
  unfolding occupy
  occupy-Occupied a zero i p lt = absurd (omega arith)
  occupy-Occupied a (suc f) i p lt = elim (Bool-cases (i == h)) [
    | inl e ↦ (a, rw e, record { counted = λ k q. ground arith; outside = λ j out. refl })
    | inr ne ↦
        let step = forward-ahead size h row.inside i p (ground arith) in
        let at = slot i p in
        let a' = write a (add32 offset i) (add32 (a (add32 offset i)) 1) in
        let (b, run, o) = occupy-Occupied a' f (forward size i) (forward-lt i p) (omega arith) in
        (
          b,
          rw (ne, wrap_index-forward size i row.ring p) run,
          record {
            counted =
                λ k q. o.counted k q ∙ (ground (arith, at, step, to_inj size h row.inside k i q p));
            outside = λ j out. o.outside j out ∙ (ground (arith, at));
          },
        )
  ]
