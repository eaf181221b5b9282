-- ===== src/Queue/Stored.antt =====
-- zsim/src/prio_queue.h: the events that a queue stores, and what holds of the queue between two calls.
use csce614_group_project.Base.{
  weight, ℕ, ◌+◌, ◌-◌, ◌/◌, ◌%◌, ◌<◌, ◌≤◌, ◌≡◌, refl, inl, inr, Bool, true, false, not, some, write,
  ◌&&◌, List, [], ◌∷◌, All, ltb, leb, ◌==◌, if◌then◌else◌, Bool-cases, arith,
}
use csce614_group_project.Queue.{
  Linked, PrioQueue, is_empty, push, block_enqueue, put_near, insert_far,
}
use csce614_group_project.Queue.Window.{window_once}

-- the block from which the events of the map were moved last
abbrev pub base : ℕ → ℕ → ℕ
base span cur_block = cur_block - cur_block % (span / 2)

module _ {T : Type 0} ⦃l : Linked T⦄ where
  -- the events of a list that a test accepts
  abbrev pub tally : (T → Bool) → List T → ℕ
  tally test [] = 0
  tally test (x ∷ xs) = weight (test x) + tally test xs

  -- the ones of a cycle, in the map
  abbrev pub far : (T → Bool) → ℕ → List (ℕ × T) → ℕ
  far test c [] = 0
  far test c (x ∷ xs) = (if x.0 == c then weight (test x.1) else 0) + far test c xs

  abbrev pub IsSorted : List (ℕ × T) → Type 0
  IsSorted [] = Unit
  IsSorted (x ∷ xs) = All (λ y. x.0 ≤ y.0) xs × IsSorted xs

  -- `occ` tells which lists of a block hold events.
  abbrev pub IsClean : PrioQueue T → Type 0
  IsClean q = (i pos : ℕ) → (q.blocks i).occ pos ≡ not (is_empty ((q.blocks i).array pos))

  abbrev pub IsLate : ℕ → List (ℕ × T) → Type 0
  IsLate block = All (λ x. block ≤ x.0 / 64)

  -- The events of the map may be put in a list.
  abbrev pub IsUnlinked : List (ℕ × T) → Type 0
  IsUnlinked = All (λ x. l.linked x.1 ≡ false)

  pub insert_far-IsUnlinked :
      (cycle : ℕ) (obj : T) (xs : List (ℕ × T))
      → l.linked obj ≡ false
      → IsUnlinked xs
      → IsUnlinked (insert_far cycle obj xs)
  unfolding insert_far
  insert_far-IsUnlinked cycle obj [] free h = (free, tt)
  insert_far-IsUnlinked cycle obj (x ∷ xs) free h = elim (Bool-cases (ltb cycle x.0)) [
    | inl p ↦ rw p (free, h)
    | inr p ↦ rw p (h.0, insert_far-IsUnlinked cycle obj xs free h.1)
  ]

  pub far-late :
      (test : T → Bool) (c block : ℕ) (xs : List (ℕ × T))
      → IsLate block xs
      → c / 64 < block
      → far test c xs ≡ 0
  far-late test c block [] h l = refl
  far-late test c block (x ∷ xs) h l = ground (arith, far-late test c block xs h.1 l)

  pub far-insert_far :
      (test : T → Bool) (cycle : ℕ) (obj : T) (c : ℕ) (xs : List (ℕ × T))
      → far test c (insert_far cycle obj xs)
        ≡ far test c xs + (if c == cycle then weight (test obj) else 0)
  unfolding insert_far
  far-insert_far test cycle obj c [] = ground arith
  far-insert_far test cycle obj c (x ∷ xs) = ground (arith, far-insert_far test cycle obj c xs)

  All-le : (a b : ℕ) (xs : List (ℕ × T)) → a ≤ b → All (λ y. b ≤ y.0) xs → All (λ y. a ≤ y.0) xs
  All-le a b [] l h = tt
  All-le a b (x ∷ xs) l h = (omega (arith, h.0), All-le a b xs l h.1)

  insert_far-bound :
      (b cycle : ℕ) (obj : T) (xs : List (ℕ × T))
      → b ≤ cycle
      → All (λ y. b ≤ y.0) xs
      → All (λ y. b ≤ y.0) (insert_far cycle obj xs)
  unfolding insert_far
  insert_far-bound b cycle obj [] l h = (l, tt)
  insert_far-bound b cycle obj (x ∷ xs) l h = elim (Bool-cases (ltb cycle x.0)) [
    | inl p ↦ rw p (l, h)
    | inr p ↦ rw p (h.0, insert_far-bound b cycle obj xs l h.1)
  ]

  pub insert_far-IsSorted :
      (cycle : ℕ) (obj : T) (xs : List (ℕ × T)) → IsSorted xs → IsSorted (insert_far cycle obj xs)
  unfolding insert_far
  insert_far-IsSorted cycle obj [] h = (tt, tt)
  insert_far-IsSorted cycle obj (x ∷ xs) h = elim (Bool-cases (ltb cycle x.0)) [
    | inl p ↦ rw p ((ground arith, All-le cycle x.0 xs (ground arith) h.0), h)
    | inr p ↦
        rw p (
          insert_far-bound x.0 cycle obj xs (ground arith) h.0,
          insert_far-IsSorted cycle obj xs h.1,
        )
  ]

  pub insert_far-IsLate :
      (block cycle : ℕ) (obj : T) (xs : List (ℕ × T))
      → block ≤ cycle / 64
      → IsLate block xs
      → IsLate block (insert_far cycle obj xs)
  unfolding insert_far
  insert_far-IsLate block cycle obj [] l h = (l, tt)
  insert_far-IsLate block cycle obj (x ∷ xs) l h = elim (Bool-cases (ltb cycle x.0)) [
    | inl p ↦ rw p (l, h)
    | inr p ↦ rw p (h.0, insert_far-IsLate block cycle obj xs l h.1)
  ]

  pub IsLate-le : (a b : ℕ) (xs : List (ℕ × T)) → a ≤ b → IsLate b xs → IsLate a xs
  IsLate-le a b [] l h = tt
  IsLate-le a b (x ∷ xs) l h = (omega (arith, h.0), IsLate-le a b xs l h.1)

  module _ (span : ℕ) where
    abbrev pub in_window : PrioQueue T → ℕ → Bool
    in_window q c = leb q.cur_block (c / 64) && ltb (c / 64) (q.cur_block + span)

    -- the ones of a cycle, in the blocks
    abbrev pub near : (T → Bool) → PrioQueue T → ℕ → ℕ
    near test q c =
        if in_window q c then tally test ((q.blocks (c / 64 % span)).array (c % 64)) else 0

    -- How many events of the cycle are stored that the test accepts: for every test, the bag of them.
    abbrev pub stored : (T → Bool) → PrioQueue T → ℕ → ℕ
    stored test q c = near test q c + far test c q.fe_map

    pub record IsQueue (q : PrioQueue T) : Type 0 where
      pub clean : IsClean q
      pub sorted : IsSorted q.fe_map
      pub late : IsLate (base span q.cur_block + span) q.fe_map
      pub unlinked : IsUnlinked q.fe_map

    -- the queue with the event at the head of its cycle's list
    unfoldable pub placed : PrioQueue T → T → ℕ → PrioQueue T
    placed q obj cycle =
        let i = cycle / 64 % span in
        record q { blocks = write q.blocks i (push (q.blocks i) obj (cycle % 64)) }

    pub put_near-placed :
        (q : PrioQueue T) (obj : T) (cycle : ℕ)
        → l.linked obj ≡ false
        → put_near span q obj cycle ≡ some (placed q obj cycle)
    unfolding put_near block_enqueue placed
    put_near-placed q obj cycle free = rw free refl

    pub placed-IsClean :
        (q : PrioQueue T) (obj : T) (cycle : ℕ) → IsClean q → IsClean (placed q obj cycle)
    unfolding placed push
    placed-IsClean q obj cycle h i pos = ground (arith, h i pos, h (cycle / 64 % span) pos)

    pub near-placed :
        (test : T → Bool) (q : PrioQueue T) (obj : T) (cycle c : ℕ)
        → in_window q cycle ≡ true
        → near test (placed q obj cycle) c
          ≡ near test q c + (if c == cycle then weight (test obj) else 0)
    unfolding placed push
    near-placed test q obj cycle c h =
        ground
          (arith, window_once span (c / 64) (cycle / 64), window_once span (cycle / 64) (c / 64))
