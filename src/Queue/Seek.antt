-- ===== src/Queue/Seek.antt =====
-- zsim/src/prio_queue.h: the search for the block of the next event.
use csce614_group_project.Base.{
  ℕ, zero, suc, ◌+◌, ◌*◌, ◌/◌, ◌%◌, ◌<◌, ◌≤◌, ◌≡◌, ◌∙◌, refl, inl, inr, Bool, true, false, some,
  ltb, ◌==◌, Bool-cases, arith,
}
use csce614_group_project.Queue.{Linked, PrioQueue, is_some, seek, occupied, first_set}
use csce614_group_project.Queue.Stored.{tally, stored, base, IsQueue, far-late}
use csce614_group_project.Queue.Moves.{block_tally, next_block-Keeps, base_ahead}

pub first_set-some :
    (n : ℕ) (occ : ℕ → Bool) (pos : ℕ)
    → is_some (first_set n occ pos) ≡ true
    → (k : ℕ) × (first_set n occ pos ≡ some k)
      × (pos ≤ k)
      × (k < pos + n)
      × (occ k ≡ true)
      × ((j : ℕ) → pos ≤ j → j < k → occ j ≡ false)
unfolding first_set
first_set-some zero occ pos h = cc
first_set-some (suc n) occ pos h = elim (Bool-cases (occ pos)) [
  | inl p ↦ rw p (pos, refl, omega arith, omega arith, p, λ j l l'. absurd (omega arith))
  | inr p ↦
      let (k, e, l, l', on, before) = first_set-some n occ (suc pos) (ground arith) in
      rw p (
        k,
        e,
        omega arith,
        omega arith,
        on,
        λ j m m'. elim (Bool-cases (j == pos)) [
          | inl r ↦ ground arith
          | inr r ↦ before j (ground arith) m'
        ],
      )
]

module _ {T : Type 0} ⦃l : Linked T⦄ (span : ℕ) (wide : 2 ≤ span) where
  -- no event is before the current block
  pub stored-past :
      (test : T → Bool) (q : PrioQueue T) (c : ℕ)
      → IsQueue span q
      → c / 64 < q.cur_block
      → stored span test q c ≡ 0
  stored-past test q c h l =
      let none_far =
        far-late test c (base span q.cur_block + span) q.fe_map h.late
          (omega (arith, base_ahead span q.cur_block wide)) in
      ground (arith, none_far)

  pub stored-here :
      (test : T → Bool) (q : PrioQueue T) (c : ℕ)
      → IsQueue span q
      → c / 64 ≡ q.cur_block
      → stored span test q c ≡ tally test ((q.blocks (q.cur_block % span)).array (c % 64))
  stored-here test q c h e =
      let none_far =
        far-late test c (base span q.cur_block + span) q.fe_map h.late
          (omega (arith, base_ahead span q.cur_block wide)) in
      rw (none_far, e) (ground arith)

  pub beyond :
      (test : T → Bool) (q : PrioQueue T) (c : ℕ)
      → IsQueue span q
      → occupied span (q.blocks (q.cur_block % span)) ≡ false
      → 0 < stored span test q c
      → suc q.cur_block ≤ c / 64
  beyond test q c h p on =
      let gone = block_tally span q (q.cur_block % span) h.clean p test (c % 64) (omega arith) in
      elim (Bool-cases (ltb c (q.cur_block * 64))) [
        | inl r ↦ absurd (omega (arith, stored-past test q c h (ground arith)))
        | inr r ↦ elim (Bool-cases (c / 64 == q.cur_block)) [
          | inl s ↦ absurd (omega (arith, gone, stored-here test q c h (ground arith)))
          | inr s ↦ ground arith
        ]
      ]

  -- the block that the search finds
  pub record Finds (q q' : PrioQueue T) : Type 0 where
    pub sound : IsQueue span q'
    pub found : occupied span (q'.blocks (q'.cur_block % span)) ≡ true
    pub elems_same : q'.elems ≡ q.elems
    pub bag : (test : T → Bool) (c : ℕ) → stored span test q' c ≡ stored span test q c

  pub seek-Finds :
      (fuel : ℕ) (q : PrioQueue T) (test : T → Bool) (c : ℕ)
      → IsQueue span q
      → 0 < stored span test q c
      → c / 64 < q.cur_block + fuel
      → (c / 64 + span) * 64 < 18446744073709551616
      → (q' : PrioQueue T) × (seek span fuel q ≡ some q') × Finds q q'
  unfolding seek
  seek-Finds zero q test c h on enough room =
      absurd (omega (arith, stored-past test q c h (omega arith)))
  seek-Finds (suc fuel) q test c h on enough room =
      elim (Bool-cases (occupied span (q.blocks (q.cur_block % span)))) [
        | inl p ↦
            rw p (q, refl, record { sound = h; found = p; elems_same = refl; bag = λ test c. refl })
        | inr p ↦
            let later = beyond test q c h p on in
            let (q₁, e, h₁, cur₁, elems₁, bag₁) = next_block-Keeps span q wide (omega arith) h p in
            let (q₂, e₂, k) =
              seek-Finds fuel q₁ test c h₁ (omega (arith, bag₁ test c)) (omega arith) room in
            rw (p, e, e₂)
              (
                q₂,
                refl,
                record {
                  sound = k.sound;
                  found = k.found;
                  elems_same = k.elems_same ∙ elems₁;
                  bag = λ test' c'. k.bag test' c' ∙ bag₁ test' c';
                },
              )
      ]
