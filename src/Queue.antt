-- ===== src/Queue.antt =====
-- zsim/src/prio_queue.h, class PrioQueue: events by cycle, in `span` blocks of 64 cycles from the
-- current one on, and a sorted map for the events beyond them. A list linked through `next` is a
-- List, and its elements are events as they are handed over, of which `linked` tells if `next` is set.
-- `none` is a failed assertion, or a search that makes more than `fuel` rounds.
use csce614_group_project.Base.{
  ℕ, zero, suc, ◌+◌, ◌-◌, ◌*◌, ◌/◌, ◌%◌, min, Bool, true, false, not, ◌&&◌, Option, none, some,
  List, [], ◌∷◌, Array, write, add64, sub64, ltb, leb, ◌==◌, if◌then◌else◌, ◌>>=◌, ◌>>◌, require,
}
pub mod Window
pub mod Stored
pub mod Moves
pub mod Seek
pub mod Order
mod Tests

-- whether the `next` of an event that is handed over is set; `dequeue` hands it over unset
pub record Linked (T : Type 0) : Type 0 where
  pub linked : T → Bool

pub record Block (T : Type 0) : Type 0 where
  pub array : Array (List T)
  pub occ : Array Bool

pub record PrioQueue (T : Type 0) : Type 0 where
  pub blocks : Array (Block T)
  pub fe_map : List (ℕ × T)
  pub cur_block : ℕ
  pub elems : ℕ

-- `__builtin_ctzl(occ)`: the first bit that is set, of `n` from `pos` on
pub first_set : ℕ → Array Bool → ℕ → Option ℕ
first_set zero occ pos = none
first_set (suc n) occ pos = if occ pos then some pos else first_set n occ (suc pos)

abbrev pub is_empty {ℓ} : {A : Type ℓ} → List A → Bool
is_empty [] = true
is_empty (x ∷ xs) = false

abbrev pub is_some : Option ℕ → Bool
is_some none = false
is_some (some pos) = true

abbrev either : Option ℕ → Option ℕ → Option ℕ
either (some cycle) rest = some cycle
either none rest = rest

module _ {T : Type 0} ⦃l : Linked T⦄ where
  pub init : PrioQueue T
  init = record {
    blocks = λ k. record { array = λ pos. []; occ = λ pos. false };
    fe_map = [];
    cur_block = 0;
    elems = 0;
  }

  -- PQBlock
  pub take_first : Block T → ℕ → List T → Option (T × ℕ × Block T)
  take_first b pos [] = none
  take_first b pos (x ∷ xs) = some (
    x,
    pos,
    record {
      array = write b.array pos xs;
      occ = (if is_empty xs then write b.occ pos false else b.occ);
    },
  )

  pub block_dequeue : Block T → Option (T × ℕ × Block T)
  block_dequeue b = do pos ← first_set 64 b.occ 0; take_first b pos (b.array pos)

  pub push : Block T → T → ℕ → Block T
  push b obj pos = record {
    array = write b.array pos (obj ∷ b.array pos);
    occ = write b.occ pos true;
  }

  pub block_enqueue : Block T → T → ℕ → Option (Block T)
  block_enqueue b obj pos = do require (not (l.linked obj)); some (push b obj pos)

  -- `feMap.insert`: after the elements of the same cycle
  pub insert_far : ℕ → T → List (ℕ × T) → List (ℕ × T)
  insert_far cycle obj [] = (cycle, obj) ∷ []
  insert_far cycle obj (x ∷ xs) =
      if ltb cycle x.0 then (cycle, obj) ∷ x ∷ xs else x ∷ insert_far cycle obj xs

  module _ (span : ℕ) where
    -- an event of one of the blocks
    pub put_near : PrioQueue T → T → ℕ → Option (PrioQueue T)
    put_near q obj cycle = do
      let i = cycle / 64 % span
      b ← block_enqueue (q.blocks i) obj (cycle % 64)
      some (record q { blocks = write q.blocks i b })

    pub enqueue : PrioQueue T → T → ℕ → Option (PrioQueue T)
    enqueue q obj cycle = do
      require (leb q.cur_block (cycle / 64))
      q' ←
          (if ltb (cycle / 64) (add64 q.cur_block span)
            then put_near q obj cycle
            else some (record q { fe_map = insert_far cycle obj q.fe_map }))
      some (record q' { elems = add64 q.elems 1 })

    -- the events of the map before `top`, moved to the blocks
    pub move_near : ℕ → PrioQueue T → List (ℕ × T) → Option (PrioQueue T)
    move_near top q [] = some (record q { fe_map = [] })
    move_near top q (x ∷ xs) =
        let rest = put_near q x.1 x.0 >>= (λ q'. move_near top q' xs) in
        if ltb x.0 top
        then (require (leb q.cur_block (x.0 / 64))
            >> (require (ltb (x.0 / 64) (add64 q.cur_block span)) >> rest))
        else some (record q { fe_map = x ∷ xs })

    -- one round of the loop of `dequeue`
    pub next_block : PrioQueue T → Option (PrioQueue T)
    next_block q =
        let q' = record q { cur_block = add64 q.cur_block 1 } in
        if q'.cur_block % (span / 2) == 0 && not (is_empty q.fe_map)
        then move_near (add64 q'.cur_block span * 64 % 18446744073709551616) q' q.fe_map
        else some q'

    -- `occ` of a block is not 0
    pub occupied : Block T → Bool
    occupied b = is_some (first_set 64 b.occ 0)

    pub seek : ℕ → PrioQueue T → Option (PrioQueue T)
    seek zero q = none
    seek (suc fuel) q =
        let rest = next_block q >>= seek fuel in
        if occupied (q.blocks (q.cur_block % span)) then some q else rest

    -- the event, its cycle, and the rest
    pub dequeue : ℕ → PrioQueue T → Option (T × ℕ × PrioQueue T)
    dequeue fuel q = do
      require (not (q.elems == 0))
      q' ← seek fuel q
      let i = q'.cur_block % span
      (obj, offset, b) ← block_dequeue (q'.blocks i)
      some (
        obj,
        q'.cur_block * 64 + offset,
        record q' { blocks = write q'.blocks i b; elems = sub64 q'.elems 1 },
      )

    pub size : PrioQueue T → ℕ
    size q = q.elems

    -- the first event in the `n` blocks from the `i`-th on
    pub first_near : ℕ → ℕ → PrioQueue T → Option ℕ
    first_near zero i q = none
    first_near (suc n) i q =
        let b = q.blocks (add64 q.cur_block i % span) in
        let rest = first_near n (suc i) q in
        if occupied b
        then (first_set 64 b.occ 0 >>= (λ pos. some (add64 q.cur_block i * 64 + pos)))
        else rest

    -- an event of the farther blocks, against the first of the map
    abbrev earlier : Option ℕ → List (ℕ × T) → Option ℕ
    earlier none [] = none
    earlier none (x ∷ xs) = some x.0
    earlier (some cycle) [] = some cycle
    earlier (some cycle) (x ∷ xs) = some (min cycle x.0)

    pub first_cycle : PrioQueue T → Option ℕ
    first_cycle q = do
      require (not (q.elems == 0))
      either (first_near (span / 2) 0 q)
          (earlier (first_near (span - span / 2) (span / 2) q) q.fe_map)
