-- ===== src/Repl/Optgen/Capacity.antt =====
-- The invariant of OPTgen's arrays.
use native.Mathlib.Decide.{dec_lt}
use csce614_group_project.Base.{
  ℕ, ◌+◌, ◌-◌, ◌*◌, ◌≤◌, ◌<◌, ◌≡◌, ◌≢◌, Bool, true, arith, u32_mod, ltb, leb, ◌∙◌, ◌⊎◌, inl, inr,
  ◌&&◌, some, Array, Bool-cases,
}
use csce614_group_project.Repl.Optgen.{Optgen, cache_access, now}
use csce614_group_project.Repl.Optgen.Walk.{Room, Occupied}
use csce614_group_project.Repl.Optgen.Laws.{
  IsValid, Decides, first_access, reuse_hit, reuse_miss, Records, cleared, cache_access-Decides,
  now-lt,
}

module _ (ways size offset h : ℕ) (fit : ways < u32_mod) where
  Occupied-capacity :
      (a b : Array ℕ) (i : ℕ)
      → ((k : ℕ) → a k ≤ ways)
      → Room size offset h ways a i true
      → Occupied size offset h a i b
      → (j : ℕ) → b j ≤ ways
  Occupied-capacity a b i low room occ j =
      elim (Bool-cases (leb offset j && ltb j (offset + size))) [
        | inl inside ↦
            let at : offset + (j - offset) ≡ j = ground arith in
            let near : j - offset < size = ground arith in
            ground (arith, occ.counted (j - offset) near, room (j - offset) near, low j, at)
        | inr away ↦ ground (arith, occ.outside j, low j)
      ]

module _ (g g2 : Optgen) (address set : ℕ) (v : IsValid g) where
  cleared_capacity : (k : ℕ) → cleared g set k ≤ g.num_ways
  cleared_capacity k = ground (arith, v.capacity k)

  Decides-capacity :
      (hit : Bool) → Decides g address set g2 hit → (k : ℕ) → g2.occupancy_vector k ≤ g.num_ways
  Decides-capacity hit (first_access _ e) k = rw e (cleared_capacity k)
  Decides-capacity hit (reuse_hit idx _ room occ) k =
      Occupied-capacity g.num_ways g.vector_size (set * g.vector_size) (now g set) v.ways_fit
        (cleared g set) g2.occupancy_vector idx cleared_capacity room occ k
  Decides-capacity hit (reuse_miss idx _ _ e) k = rw e (cleared_capacity k)

  pub Decides-IsValid :
      (hit : Bool) → Decides g address set g2 hit → Records g address set g2 → IsValid g2
  Decides-IsValid hit d r =
      let (same_size, same_ways, same_sampled) = r.same_shape in
      record {
        ring = rw same_size v.ring;
        wide = rw same_size v.wide;
        ways = rw same_ways v.ways;
        rows = rw (same_size, same_sampled) v.rows;
        capacity = rw same_ways (Decides-capacity hit d);
        ways_fit = rw same_ways v.ways_fit;
      }

-- From valid arrays, among them a number of slots that divides 2^32, with more fuel than slots, an
-- access to a sampled set ends and leaves valid arrays: no slot ever holds more lines than the cache
-- has ways.
pub cache_access-IsValid :
    (f : ℕ) (g : Optgen) (address set : ℕ)
    → IsValid g
    → g.is_sampled set ≡ true
    → g.vector_size < f
    → (hit : Bool) × (g2 : Optgen) × (cache_access f g address set ≡ some (hit, g2)) × IsValid g2
cache_access-IsValid f g address set v on enough =
    let (r, run, (d, rec)) = cache_access-Decides g address set v on f enough in
    (r.0, r.1, run, Decides-IsValid g r.1 address set v r.0 d rec)

rows_below : (size a b k : ℕ) → a < b → k < size → a * size + k < b * size
rows_below size a b k p q = grind arith

rows_apart :
    (size other set k : ℕ)
    → other ≢ set
    → k < size
    → (other * size + k < set * size) ⊎ (set * size + size ≤ other * size + k)
rows_apart size other set k ne q = elim (dec_lt other set) [
  | yes h ↦ inl (rows_below size other set k h q)
  | no h ↦
      let p : set < other = omega arith in
      inr (omega (arith, rows_below size set other (size - 1) p (omega arith)))
]

-- From valid arrays, with more fuel than slots, an access to a sampled set ends and leaves the
-- history, the slots and the count of every other set as they are.
pub cache_access_others :
    (f : ℕ) (g : Optgen) (address set other k : ℕ)
    → IsValid g
    → g.is_sampled set ≡ true
    → g.vector_size < f
    → other ≢ set
    → k < g.vector_size
    → (hit : Bool) × (g2 : Optgen) × (cache_access f g address set ≡ some (hit, g2))
      × (g2.history (other * g.vector_size + k) ≡ g.history (other * g.vector_size + k))
      × (g2.occupancy_vector (other * g.vector_size + k)
          ≡ g.occupancy_vector (other * g.vector_size + k))
      × (g2.access_count other ≡ g.access_count other)
cache_access_others f g address set other k v on enough ne q =
    let (r, run, (d, rec)) = cache_access-Decides g address set v on f enough in
    let apart = rows_apart g.vector_size other set k ne q in
    let inside = now-lt g address set v on in
    (
      r.0,
      r.1,
      run,
      rw rec.history (ground (arith, apart, inside)),
      slots r.1 r.0 d apart inside,
      rw rec.count (ground arith),
    )
  where
    slots :
        (g2 : Optgen) (hit : Bool)
        → Decides g address set g2 hit
        → (other * g.vector_size + k < set * g.vector_size)
          ⊎ (set * g.vector_size + g.vector_size ≤ other * g.vector_size + k)
        → now g set < g.vector_size
        → g2.occupancy_vector (other * g.vector_size + k)
          ≡ g.occupancy_vector (other * g.vector_size + k)
    slots g2 hit (first_access _ e) apart inside = rw e (ground arith)
    slots g2 hit (reuse_hit idx _ room occ) apart inside =
        occ.outside (other * g.vector_size + k) apart ∙ (ground arith)
    slots g2 hit (reuse_miss idx _ _ e) apart inside = rw e (ground arith)
