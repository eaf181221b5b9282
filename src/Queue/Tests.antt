-- ===== src/Queue/Tests.antt =====
-- A queue of four blocks, with an event in them and one in the map.
use csce614_group_project.Base.{
  ℕ, zero, suc, ◌<◌, ◌≡◌, refl, true, none, ltb, Option, some, List, [], ◌∷◌, add64, ◌>>=◌, arith,
}
use csce614_group_project.Queue.{
  Linked, PrioQueue, init, enqueue, put_near, block_enqueue, push, insert_far, dequeue, seek,
  next_block, occupied, first_set, block_dequeue, take_first, move_near,
}
use csce614_group_project.Queue.Stored.{stored, IsQueue}
use csce614_group_project.Queue.Order.{Adds, enqueue-Adds, Takes, dequeue-Takes}

-- the events are numbers, and those from 100 on are linked
instance abbrev numbered : Linked ℕ
numbered = record { linked = λ x. ltb 99 x }

abbrev empty : PrioQueue ℕ
empty = init

empty-IsQueue : IsQueue 4 empty
unfolding init
empty-IsQueue = record { clean = λ i pos. refl; sorted = tt; late = tt; unlinked = tt }

abbrev drain : ℕ → PrioQueue ℕ → Option (List (ℕ × ℕ))
drain zero q = some []
drain (suc n) q = do
  (obj, cycle, q') ← dequeue 4 64 q
  rest ← drain n q'
  some ((obj, cycle) ∷ rest)

in_order :
    (do q ← enqueue 4 empty 7 1000; q' ← enqueue 4 q 8 70; drain 2 q')
    ≡ some ((8, 70) ∷ (7, 1000) ∷ [])
unfolding init enqueue put_near block_enqueue push insert_far dequeue seek next_block occupied
    first_set block_dequeue take_first move_near
in_order = refl

-- An event that is linked already is not taken in.
linked_fails : enqueue 4 empty 100 70 ≡ none
unfolding init enqueue put_near block_enqueue
linked_fails = refl

enqueue-Adds_example :
    (q : PrioQueue ℕ) × (enqueue 4 empty 7 1000 ≡ some q)
    × IsQueue 4 q
    × (q.cur_block ≡ empty.cur_block)
    × (q.elems ≡ add64 empty.elems 1)
    × Adds 4 (omega arith) 7 1000 empty q
unfolding init
enqueue-Adds_example =
    enqueue-Adds 4 (omega arith) empty 7 1000 empty-IsQueue (omega arith) (omega arith) refl

abbrev one : PrioQueue ℕ
one = enqueue-Adds_example.0

one-stored : 0 < stored 4 (λ x. true) one 1000
unfolding init
one-stored =
    let (q, e, sound, cur, elems, adds) = enqueue-Adds_example in
    omega (arith, adds (λ x. true) 1000)

one_left : (0 < one.elems) × (one.cur_block ≡ 0)
unfolding init
one_left = let (q, e, sound, cur, elems, adds) = enqueue-Adds_example in (omega (arith, elems), cur)

dequeue-Takes_example :
    (obj : ℕ) × (cycle : ℕ) × (q' : PrioQueue ℕ) × (dequeue 4 16 one ≡ some (obj, cycle, q'))
    × Takes 4 (omega arith) one obj cycle q'
dequeue-Takes_example =
    dequeue-Takes 4 (omega arith) 16 one (λ x. true) 1000 enqueue-Adds_example.2 one_left.0
      one-stored (omega (arith, one_left.1)) (omega arith)
