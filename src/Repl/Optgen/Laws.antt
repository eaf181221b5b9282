-- ===== src/Repl/Optgen/Laws.antt =====
-- What an access to OPTgen decides and records.
use csce614_group_project.Base.{
  ℕ, ◌+◌, ◌*◌, ◌≤◌, ◌<◌, ◌≡◌, ◌≢◌, refl, Bool, true, false, arith, add32, mul32, u32_mod, ◌==◌, ◌∙◌,
  inl, inr, some, Array, write, Bool-cases, ap,
}
use csce614_group_project.Repl.Optgen.{
  Optgen, open_slot, fill, decide_hit, now, look_back, access_at, cache_access,
}
use csce614_group_project.Repl.Optgen.Ring.{IsRing, wrap_index-lt, back, wrap_index-back, ahead}
use csce614_group_project.Repl.Optgen.Walk.{
  IsRow, Stops, find_back-Stops, Room, has_room-Room, Occupied, occupy-Occupied, slot,
}

-- The arrays of OPTgen: a ring of slots for each set, at most as many lines in a slot as ways.
pub record IsValid (g : Optgen) : Type 0 where
  pub ring : IsRing g.vector_size
  pub wide : 2 ≤ g.vector_size
  pub ways : 1 ≤ g.num_ways
  pub rows : (set : ℕ) → g.is_sampled set ≡ true → set * g.vector_size + g.vector_size ≤ u32_mod
  pub capacity : (k : ℕ) → g.occupancy_vector k ≤ g.num_ways
  pub ways_fit : g.num_ways < u32_mod

-- The newest slot but that one that holds the address.
pub record Newest (g : Optgen) (address set idx : ℕ) : Type 0 where
  pub inside : idx < g.vector_size
  pub earlier : idx ≢ now g set
  pub same : g.history (set * g.vector_size + idx) ≡ address
  pub newest :
      (k : ℕ)
      → k < g.vector_size
      → k ≢ now g set
      → ahead g.vector_size (now g set) idx < ahead g.vector_size (now g set) k
      → g.history (set * g.vector_size + k) ≢ address

-- The occupancies once the slot of the new time quantum is cleared.
abbrev pub cleared : Optgen → ℕ → Array ℕ
cleared g set = write g.occupancy_vector (set * g.vector_size + now g set) 0

-- A first access in the window misses. A reuse hits exactly when every slot since the last access
-- had room, and then takes one place in each.
pub data Decides (g : Optgen) (address set : ℕ) (g2 : Optgen) : Bool → Type 0 where
  first_access :
      ((k : ℕ) → k < g.vector_size → k ≢ now g set → g.history (set * g.vector_size + k) ≢ address)
      → g2.occupancy_vector ≡ cleared g set
      → Decides g address set g2 false
  reuse_hit :
      (idx : ℕ)
      → Newest g address set idx
      → Room g.vector_size (set * g.vector_size) (now g set) g.num_ways (cleared g set) idx true
      → Occupied g.vector_size
          (set * g.vector_size)
          (now g set)
          (cleared g set)
          idx
          g2.occupancy_vector
      → Decides g address set g2 true
  reuse_miss :
      (idx : ℕ)
      → Newest g address set idx
      → Room g.vector_size (set * g.vector_size) (now g set) g.num_ways (cleared g set) idx false
      → g2.occupancy_vector ≡ cleared g set
      → Decides g address set g2 false

-- The rest of the new state: the address is recorded in the new slot, the access is counted.
pub record Records (g : Optgen) (address set : ℕ) (g2 : Optgen) : Type 0 where
  pub same_shape :
      (g2.vector_size ≡ g.vector_size) × (g2.num_ways ≡ g.num_ways) × (g2.is_sampled ≡ g.is_sampled)
  pub history : g2.history ≡ write g.history (set * g.vector_size + now g set) address
  pub count : g2.access_count ≡ write g.access_count set (add32 (g.access_count set) 1)

module _ (g : Optgen) (address set : ℕ) (v : IsValid g) (on : g.is_sampled set ≡ true) where
  abbrev size : ℕ
  size = g.vector_size

  abbrev offset : ℕ
  offset = set * g.vector_size

  pub now-lt : now g set < g.vector_size
  unfolding now
  now-lt = wrap_index-lt g.vector_size _ v.ring.positive v.ring.small

  pub row : IsRow g.vector_size (set * g.vector_size) (now g set)
  row = record { ring = v.ring; fits = v.rows set on; inside = now-lt }

  mul32-set : mul32 set g.vector_size ≡ set * g.vector_size
  mul32-set = omega (arith, v.rows set on, v.ring.positive)

  slot_now : add32 (set * g.vector_size) (now g set) ≡ set * g.vector_size + now g set
  slot_now = slot g.vector_size (set * g.vector_size) (now g set) row (now g set) now-lt

  abbrev opened : Optgen
  opened = record g {
    access_count = write g.access_count set (add32 (g.access_count set) 1);
    occupancy_vector = cleared g set;
    history = write g.history (set * g.vector_size + now g set) address;
  }

  open_slot-opened : open_slot g address set (now g set) (set * g.vector_size) ≡ opened
  unfolding open_slot
  open_slot-opened = rw slot_now

  Newest-stop :
      (idx : ℕ)
      → idx ≢ now g set
      → Stops g.vector_size
          (set * g.vector_size)
          (now g set)
          opened.history
          address
          (back g.vector_size (now g set))
          idx
      → Newest g address set idx
  Newest-stop idx ne s = record {
    inside = s.inside;
    earlier = ne;
    same = ground (arith, s.here);
    newest = λ k p other far. ground (arith, s.newest k p far, now-lt);
  }

  abbrev Outcome : Bool × Optgen → Type 0
  Outcome r = Decides g address set r.1 r.0 × Records g address set r.1

  recorded : (o : Array ℕ) → Records g address set (record opened { occupancy_vector = o })
  recorded o = record { same_shape = (refl, refl, refl); history = refl; count = refl }

  filled :
      (f idx : ℕ) (b : Bool)
      → g.vector_size < f
      → idx < g.vector_size
      → Newest g address set idx
      → Room g.vector_size (set * g.vector_size) (now g set) g.num_ways (cleared g set) idx b
      → (r : Bool × Optgen) × (fill f opened (set * g.vector_size) (now g set) idx b ≡ some r)
        × Outcome r
  unfolding fill
  filled f idx false enough p new room =
      ((false, opened), refl, (reuse_miss idx new room refl, recorded (cleared g set)))
  filled f idx true enough p new room =
      let (o, run, occ) =
        occupy-Occupied g.vector_size (set * g.vector_size) (now g set) row (cleared g set) f idx p
          (ground (arith, now-lt)) in
      (
        (true, record opened { occupancy_vector = o }),
        rw run,
        (reuse_hit idx new room occ, recorded o),
      )

  decided :
      (f idx : ℕ)
      → g.vector_size < f
      → Stops g.vector_size
          (set * g.vector_size)
          (now g set)
          opened.history
          address
          (back g.vector_size (now g set))
          idx
      → (r : Bool × Optgen) × (decide_hit f opened (set * g.vector_size) (now g set) idx ≡ some r)
        × Outcome r
  unfolding decide_hit
  decided f idx enough s = elim (Bool-cases (idx == now g set)) [
    | inl e ↦ (
      (false, opened),
      rw e,
      (
        first_access (λ k p other. ground (arith, s.newest k p, now-lt)) refl,
        recorded (cleared g set),
      ),
    )
    | inr ne ↦
        let new = Newest-stop idx (ground arith) s in
        let (b, run, room) =
          has_room-Room g.vector_size (set * g.vector_size) (now g set) row g.num_ways
            (cleared g set) f idx s.inside (ground (arith, now-lt, s.inside)) in
        let (r, go, out) = filled f idx b enough s.inside new room in (r, rw (ne, run) go, out)
  ]

  look_back-Decides :
      (f : ℕ)
      → g.vector_size < f
      → (r : Bool × Optgen) × (look_back f opened address (now g set) (set * g.vector_size)
          ≡ some r)
        × Outcome r
  unfolding look_back
  look_back-Decides f enough =
      let start = wrap_index-back g.vector_size (now g set) v.ring now-lt in
      let (idx, run, s) =
        find_back-Stops g.vector_size (set * g.vector_size) (now g set) row opened.history address f
          (back g.vector_size (now g set)) (ground (arith, now-lt)) (ground (arith, now-lt)) in
      let (r, go, out) = decided f idx enough s in (r, rw (start, run) go, out)

  access_at-look_back :
      (f : ℕ)
      → access_at f g address set (now g set) (set * g.vector_size)
        ≡ look_back f opened address (now g set) (set * g.vector_size)
  unfolding access_at
  access_at-look_back f =
      ap (λ g'. look_back f g' address (now g set) (set * g.vector_size)) open_slot-opened

  access_at-Decides :
      (f : ℕ)
      → g.vector_size < f
      → (r : Bool × Optgen) × (access_at f g address set (now g set) (set * g.vector_size) ≡ some r)
        × Outcome r
  access_at-Decides f enough =
      let (r, go, out) = look_back-Decides f enough in (r, access_at-look_back f ∙ go, out)

  -- For valid arrays, among them a number of slots that divides 2^32, a sampled set and more fuel
  -- than slots, an access ends. An address that no earlier slot holds is a miss; a reuse is a hit
  -- exactly when every slot since the last use had room, and then takes one place in each of them and
  -- no other. The address is recorded in the new slot and the access counted.
  pub cache_access-Decides :
      (f : ℕ)
      → g.vector_size < f
      → (r : Bool × Optgen) × (cache_access f g address set ≡ some r) × Outcome r
  unfolding cache_access
  cache_access-Decides f enough =
      let (r, go, out) = access_at-Decides f enough in (r, rw (on, mul32-set) go, out)
