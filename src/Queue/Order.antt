-- ===== src/Queue/Order.antt =====
-- zsim/src/prio_queue.h: a queue as a bag of events for every cycle, and the order in which they come out.
use csce614_group_project.Base.{
  weight, ℕ, ◌+◌, ◌*◌, ◌/◌, ◌%◌, ◌<◌, ◌≤◌, ◌≡◌, ◌∙◌, refl, sym, inl, inr, Bool, true, false, some,
  List, [], ◌∷◌, write, ltb, leb, ◌==◌, if◌then◌else◌, add64, sub64, Bool-cases, arith,
}
use csce614_group_project.Queue.{
  Linked, PrioQueue, Block, is_empty, insert_far, enqueue, dequeue, take_first, block_dequeue,
  occupied,
}
use csce614_group_project.Queue.Window.{window_once}
use csce614_group_project.Queue.Stored.{
  tally, IsClean, stored, base, IsQueue, placed-IsClean, near-placed, placed, put_near-placed,
  insert_far-IsUnlinked, far-insert_far, insert_far-IsSorted, insert_far-IsLate,
}
use csce614_group_project.Queue.Moves.{tally_empty}
use csce614_group_project.Queue.Seek.{first_set-some, stored-here, seek-Finds, stored-past}

module _ {T : Type 0} ⦃l : Linked T⦄ (span : ℕ) (wide : 2 ≤ span) where
  -- the bag of the cycle `cycle` has `obj` besides
  abbrev pub Adds : T → ℕ → PrioQueue T → PrioQueue T → Type 0
  Adds obj cycle q q' =
      (test : T → Bool) (c : ℕ)
      → stored span test q' c ≡ stored span test q c + (if c == cycle then weight (test obj) else 0)

  -- In a sound queue an event of the current block or a later one whose `next` is unset is put in the
  -- bag of its cycle, and no other bag changes: no event is lost, in the blocks or in the map, and
  -- the queue is sound.
  pub enqueue-Adds :
      (q : PrioQueue T) (obj : T) (cycle : ℕ)
      → IsQueue span q
      → q.cur_block ≤ cycle / 64
      → q.cur_block + span < 18446744073709551616
      → l.linked obj ≡ false
      → (q' : PrioQueue T) × (enqueue span q obj cycle ≡ some q')
        × IsQueue span q'
        × (q'.cur_block ≡ q.cur_block)
        × (q'.elems ≡ add64 q.elems 1)
        × Adds obj cycle q q'
  unfolding enqueue placed
  enqueue-Adds q obj cycle h from room free =
      let e : leb q.cur_block (cycle / 64) ≡ true = ground arith in
      let sum : add64 q.cur_block span ≡ q.cur_block + span = omega arith in
      elim (Bool-cases (ltb (cycle / 64) (q.cur_block + span))) [
        | inl p ↦
            rw (e, sum, p, put_near-placed span q obj cycle free)
              (
                record (placed span q obj cycle) { elems = add64 q.elems 1 },
                refl,
                record {
                  clean = placed-IsClean span q obj cycle h.clean;
                  sorted = h.sorted;
                  unlinked = h.unlinked;
                  late = h.late;
                },
                refl,
                refl,
                λ test c. omega (arith, near-placed span test q obj cycle c (ground arith)),
              )
        | inr p ↦
            rw (e, sum, p)
              (
                record q { fe_map = insert_far cycle obj q.fe_map; elems = add64 q.elems 1 },
                refl,
                record {
                  clean = h.clean;
                  sorted = insert_far-IsSorted cycle obj q.fe_map h.sorted;
                  unlinked = insert_far-IsUnlinked cycle obj q.fe_map free h.unlinked;
                  late =
                      insert_far-IsLate (base span q.cur_block + span) cycle obj q.fe_map
                        (ground arith) h.late;
                },
                refl,
                refl,
                λ test c. omega (arith, far-insert_far test cycle obj c q.fe_map),
              )
      ]

  -- the event that comes out, of a list that holds one
  take_first-Takes :
      (b : Block T) (pos : ℕ) (xs : List T)
      → is_empty xs ≡ false
      → (obj : T) × (rest : List T) × (xs ≡ obj ∷ rest)
        × (take_first b pos xs
            ≡ some (
              obj,
              pos,
              record {
                array = write b.array pos rest;
                occ = (if is_empty rest then write b.occ pos false else b.occ);
              },
            ))
  unfolding take_first
  take_first-Takes b pos [] h = cc
  take_first-Takes b pos (x ∷ xs) h = (x, xs, refl, refl)

  -- the queue after it
  abbrev popped : PrioQueue T → ℕ → List T → PrioQueue T
  popped q pos rest =
      let i = q.cur_block % span in
      let b = q.blocks i in
      record q {
        blocks = write q.blocks i (record {
          array = write b.array pos rest;
          occ = (if is_empty rest then write b.occ pos false else b.occ);
        });
        elems = sub64 q.elems 1;
      }

  popped-IsClean :
      (q : PrioQueue T) (pos : ℕ) (obj : T) (rest : List T)
      → IsClean q
      → (q.blocks (q.cur_block % span)).array pos ≡ obj ∷ rest
      → IsClean (popped q pos rest)
  popped-IsClean q pos obj rest clean was j k =
      ground (arith, clean j k, clean (q.cur_block % span) pos, was)

  popped-Adds :
      (q : PrioQueue T) (pos : ℕ) (obj : T) (rest : List T)
      → pos < 64
      → (q.blocks (q.cur_block % span)).array pos ≡ obj ∷ rest
      → Adds obj (q.cur_block * 64 + pos) (popped q pos rest) q
  popped-Adds q pos obj rest low was test c =
      let split : tally test ((q.blocks (q.cur_block % span)).array pos)
          ≡ weight (test obj) + tally test rest =
        rw was refl in
      ground (arith, split, window_once span q.cur_block (c / 64))

  before_it :
      (test : T → Bool) (q : PrioQueue T) (pos c : ℕ)
      → IsQueue span q
      → ((j : ℕ) → 0 ≤ j → j < pos → (q.blocks (q.cur_block % span)).occ j ≡ false)
      → pos < 64
      → c < q.cur_block * 64 + pos
      → stored span test q c ≡ 0
  before_it test q pos c h before low lt = elim (Bool-cases (ltb c (q.cur_block * 64))) [
    | inl r ↦ stored-past span wide test q c h (ground arith)
    | inr r ↦
        let here : c / 64 ≡ q.cur_block = ground arith in
        let off = before (c % 64) (omega arith) (omega (arith, here)) in
        stored-here span wide test q c h here
        ∙ tally_empty span test _ (ground (arith, off, h.clean (q.cur_block % span) (c % 64)))
  ]

  -- What `dequeue` gives: the event `obj` of the least cycle that has any, out of the bag of its cycle.
  pub record Takes (q : PrioQueue T) (obj : T) (cycle : ℕ) (q' : PrioQueue T) : Type 0 where
    pub sound : IsQueue span q'
    pub one_less : q'.elems ≡ sub64 q.elems 1
    pub least : (test : T → Bool) (c : ℕ) → c < cycle → stored span test q c ≡ 0
    pub taken : Adds obj cycle q' q

  -- From a sound queue that holds an event of the cycle `c`, with as much fuel as there are blocks up to
  -- that one, `dequeue` succeeds: it returns an event, and the cycle that the event was stored under;
  -- no event of an earlier cycle is stored, every other event stays in its bag, and the queue is sound.
  pub dequeue-Takes :
      (fuel : ℕ) (q : PrioQueue T) (test : T → Bool) (c : ℕ)
      → IsQueue span q
      → 0 < q.elems
      → 0 < stored span test q c
      → c / 64 < q.cur_block + fuel
      → (c / 64 + span) * 64 < 18446744073709551616
      → (obj : T) × (cycle : ℕ) × (q' : PrioQueue T) × (dequeue span fuel q ≡ some (obj, cycle, q'))
        × Takes q obj cycle q'
  unfolding dequeue block_dequeue occupied
  dequeue-Takes fuel q test c h some_left on enough room =
      let (q₁, e, f) = seek-Finds span wide fuel q test c h on enough room in
      let i = q₁.cur_block % span in
      let (pos, first, l, l', set, before) = first_set-some 64 (q₁.blocks i).occ 0 f.found in
      let (obj, rest, was, took) =
        take_first-Takes (q₁.blocks i) pos ((q₁.blocks i).array pos)
          (ground (arith, f.sound.clean i pos)) in
      let busy : (q.elems == 0) ≡ false = ground arith in
      rw (busy, e, first, took)
        (
          obj,
          q₁.cur_block * 64 + pos,
          _,
          refl,
          record {
            sound = record {
              clean = popped-IsClean q₁ pos obj rest f.sound.clean was;
              sorted = f.sound.sorted;
              unlinked = f.sound.unlinked;
              late = f.sound.late;
            };
            one_less = rw (f.elems_same) refl;
            least = λ test' c' lt.
                sym (f.bag test' c') ∙ before_it test' q₁ pos c' f.sound before l' lt;
            taken = λ test' c'. sym (f.bag test' c') ∙ popped-Adds q₁ pos obj rest l' was test' c';
          },
        )
