-- ===== src/Queue/Moves.antt =====
-- zsim/src/prio_queue.h: the moves of the events of the map that come near to the blocks.
use csce614_group_project.Base.{
  weight, ℕ, zero, suc, ◌+◌, ◌*◌, ◌/◌, ◌%◌, ◌<◌, ◌≤◌, ◌≡◌, refl, inl, inr, Bool, true, false, not,
  ◌&&◌, Option, none, some, List, [], ◌∷◌, All, ltb, leb, ◌==◌, if◌then◌else◌, add64, Bool-cases,
  arith,
}
use csce614_group_project.Queue.{
  Linked, PrioQueue, is_empty, is_some, move_near, next_block, occupied, first_set,
}
use csce614_group_project.Queue.Window.{add_span}
use csce614_group_project.Queue.Stored.{
  tally, far, IsSorted, IsClean, in_window, near, stored, base, IsLate, IsQueue, placed-IsClean,
  near-placed, IsLate-le, placed, put_near-placed, IsUnlinked,
}

swap_test : (c d w : ℕ) → (if c == d then w else 0) ≡ (if d == c then w else 0)
swap_test c d w = ground arith

none_of : (o : Option ℕ) → is_some o ≡ false → o ≡ none
none_of none h = refl
none_of (some pos) h = cc

pub first_set-none :
    (n : ℕ) (occ : ℕ → Bool) (pos : ℕ)
    → first_set n occ pos ≡ none
    → (k : ℕ) → pos ≤ k
    → k < pos + n
    → occ k ≡ false
unfolding first_set
first_set-none zero occ pos h k l l' = absurd (omega arith)
first_set-none (suc n) occ pos h k l l' = elim (Bool-cases (occ pos)) [
  | inl p ↦ ground arith
  | inr p ↦ elim (Bool-cases (k == pos)) [
    | inl r ↦ ground arith
    | inr r ↦ first_set-none n occ (suc pos) (ground arith) k (ground arith) (omega arith)
  ]
]

base_here : (span a b : ℕ) → a ≡ b → base span a + span ≤ b + span
base_here span a b e = omega arith

-- the moves are in time
pub base_ahead : (span cur : ℕ) → 2 ≤ span → suc cur ≤ base span cur + span
base_ahead span cur wide = grind arith

base_next :
    (span cur : ℕ)
    → 2 ≤ span
    → (suc cur % (span / 2) == 0) ≡ false
    → base span (suc cur) ≡ base span cur
base_next span cur wide h = grind arith

kept-IsLate :
    {T : Type 0} ⦃l : Linked T⦄ (span cur : ℕ) (xs : List (ℕ × T))
    → 2 ≤ span
    → (suc cur % (span / 2) == 0 && not (is_empty xs)) ≡ false
    → IsLate (base span cur + span) xs
    → IsLate (base span (suc cur) + span) xs
kept-IsLate span cur [] wide h late = tt
kept-IsLate span cur (x ∷ xs) wide h late =
    let same = base_next span cur wide (ground arith) in
    IsLate-le (base span (suc cur) + span) (base span cur + span) (x ∷ xs) (omega arith) late

module _ {T : Type 0} ⦃l : Linked T⦄ (span : ℕ) where
  -- From `q`, with the events of `xs` in the map, to `q'` nothing is lost and the current block stays.
  pub record Keeps (q : PrioQueue T) (xs : List (ℕ × T)) (q' : PrioQueue T) : Type 0 where
    pub cur_same : q'.cur_block ≡ q.cur_block
    pub elems_same : q'.elems ≡ q.elems
    pub clean : IsClean q'
    pub sorted : IsSorted q'.fe_map
    pub unlinked : IsUnlinked q'.fe_map
    pub bag : (test : T → Bool) (c : ℕ) → stored span test q' c ≡ near span test q c + far test c xs

  sorted-IsLate :
      (block : ℕ) (x : ℕ × T) (xs : List (ℕ × T))
      → block ≤ x.0 / 64
      → All (λ y. x.0 ≤ y.0) xs
      → IsLate block xs
  sorted-IsLate block x [] l h = tt
  sorted-IsLate block x (y ∷ ys) l h = (omega (arith, h.0), sorted-IsLate block x ys l h.1)

  pub move_near-Keeps :
      (q : PrioQueue T) (xs : List (ℕ × T))
      → (q.cur_block + span) * 64 < 18446744073709551616
      → IsClean q
      → IsSorted xs
      → IsLate q.cur_block xs
      → IsUnlinked xs
      → (q' : PrioQueue T) × (move_near span ((q.cur_block + span) * 64) q xs ≡ some q')
        × Keeps q xs q'
        × IsLate (q.cur_block + span) q'.fe_map
  unfolding move_near placed
  move_near-Keeps q [] room clean sorted late free = (
    record q { fe_map = [] },
    refl,
    record {
      cur_same = refl;
      elems_same = refl;
      clean = clean;
      sorted = tt;
      unlinked = tt;
      bag = λ test c. refl;
    },
    tt,
  )
  move_near-Keeps q (x ∷ xs) room clean (least, sorted) (l, late) (now, free) =
      elim (Bool-cases (ltb x.0 ((q.cur_block + span) * 64))) [
        | inr p ↦ rw p (
          record q { fe_map = x ∷ xs },
          refl,
          record {
            cur_same = refl;
            elems_same = refl;
            clean = clean;
            sorted = (least, sorted);
            unlinked = (now, free);
            bag = λ test c. refl;
          },
          (ground arith, sorted-IsLate (q.cur_block + span) x xs (ground arith) least),
        )
        | inl p ↦
            let here : in_window span q x.0 ≡ true = ground arith in
            let not_past : leb q.cur_block (x.0 / 64) ≡ true = ground arith in
            let in_span : ltb (x.0 / 64) (add64 q.cur_block span) ≡ true = ground arith in
            let (q', e, k, far_off) =
              move_near-Keeps (placed span q x.1 x.0) xs room (placed-IsClean span q x.1 x.0 clean)
                sorted late free in
            rw (p, not_past, in_span, put_near-placed span q x.1 x.0 now, e)
              (
                q',
                refl,
                record {
                  cur_same = k.cur_same;
                  elems_same = k.elems_same;
                  clean = k.clean;
                  sorted = k.sorted;
                  unlinked = k.unlinked;
                  bag = λ test c. omega (
                    arith,
                    k.bag test c,
                    near-placed span test q x.1 x.0 c here,
                    swap_test c x.0 (weight (test x.1)),
                  );
                },
                far_off,
              )
      ]

  pub tally_empty : (test : T → Bool) (xs : List T) → is_empty xs ≡ true → tally test xs ≡ 0
  tally_empty test [] h = refl
  tally_empty test (x ∷ xs) h = cc

  -- an empty block holds no event at any position
  pub block_tally :
      (q : PrioQueue T) (i : ℕ)
      → IsClean q
      → occupied span (q.blocks i) ≡ false
      → (test : T → Bool) (pos : ℕ) → pos < 64
      → tally test ((q.blocks i).array pos) ≡ 0
  unfolding occupied
  block_tally q i clean empty test pos l =
      let off : (q.blocks i).occ pos ≡ false =
        first_set-none 64 (q.blocks i).occ 0 (none_of _ empty) pos (omega arith) l in
      tally_empty test _ (ground (arith, clean i pos))

  near_next :
      (q : PrioQueue T)
      → 0 < span
      → IsClean q
      → occupied span (q.blocks (q.cur_block % span)) ≡ false
      → (test : T → Bool) (c : ℕ)
      → near span test (record q { cur_block = suc q.cur_block }) c ≡ near span test q c
  near_next q some_blocks clean empty test c =
      let gone = block_tally q (q.cur_block % span) clean empty test (c % 64) (omega arith) in
      elim (Bool-cases (c / 64 == q.cur_block)) [
        | inl p ↦ let e : c / 64 ≡ q.cur_block = ground arith in rw (e, gone) (ground arith)
        | inr p ↦ elim (Bool-cases (c / 64 == q.cur_block + span)) [
          | inl r ↦
              let e : c / 64 ≡ q.cur_block + span = ground arith in
              rw (e, add_span span q.cur_block, gone) (ground arith)
          | inr r ↦ ground arith
        ]
      ]

  -- The search goes on to the next block, where the current one is empty.
  pub next_block-Keeps :
      (q : PrioQueue T)
      → 2 ≤ span
      → (suc q.cur_block + span) * 64 < 18446744073709551616
      → IsQueue span q
      → occupied span (q.blocks (q.cur_block % span)) ≡ false
      → (q' : PrioQueue T) × (next_block span q ≡ some q')
        × IsQueue span q'
        × (q'.cur_block ≡ suc q.cur_block)
        × (q'.elems ≡ q.elems)
        × ((test : T → Bool) (c : ℕ) → stored span test q' c ≡ stored span test q c)
  unfolding next_block
  next_block-Keeps q wide room h empty =
      let e : add64 q.cur_block 1 ≡ suc q.cur_block = omega arith in
      let e' : add64 (suc q.cur_block) span * 64 % 18446744073709551616
          ≡ (suc q.cur_block + span) * 64 =
        omega arith in
      let bag = near_next q (omega arith) h.clean empty in
      elim (Bool-cases (suc q.cur_block % (span / 2) == 0 && not (is_empty q.fe_map))) [
        | inr p ↦
            rw (e, p)
              (
                record q { cur_block = suc q.cur_block },
                refl,
                record {
                  clean = h.clean;
                  sorted = h.sorted;
                  unlinked = h.unlinked;
                  late = kept-IsLate span q.cur_block q.fe_map wide p h.late;
                },
                refl,
                refl,
                λ test c. omega (arith, bag test c),
              )
        | inl p ↦
            let (q', ok, k, late) =
              move_near-Keeps (record q { cur_block = suc q.cur_block }) q.fe_map room h.clean
                h.sorted
                (IsLate-le (suc q.cur_block) (base span q.cur_block + span) q.fe_map
                  (base_ahead span q.cur_block wide) h.late)
                h.unlinked in
            rw (e, p, e', ok)
              (
                q',
                refl,
                record {
                  clean = k.clean;
                  sorted = k.sorted;
                  unlinked = k.unlinked;
                  late = IsLate-le _ _ q'.fe_map (base_here span _ _ k.cur_same) late;
                },
                k.cur_same,
                k.elems_same,
                λ test c. omega (arith, k.bag test c, bag test c),
              )
      ]
