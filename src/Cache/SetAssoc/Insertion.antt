-- ===== src/Cache/SetAssoc/Insertion.antt =====
-- zsim/src/cache_arrays.cpp, SetAssocArray: what an insertion changes, for the new address, the
-- victim's and the others.
use native.Mathlib.Nat.{mod-lt}
use csce614_group_project.Base.{
  ℕ, zero, suc, ◌+◌, ◌*◌, ◌%◌, ◌≤◌, ◌<◌, ◌≡◌, ◌≢◌, refl, true, false, none, some, [], Array, write,
  range, elem, All, range-IsDistinct, ◌==◌, arith, no_cand, Bool-cases, inl, inr,
}
use csce614_group_project.Hierarchy.{MemReq}
use csce614_group_project.Repl.Policy.{Policy, Laws, IsCands}
use csce614_group_project.Cache.SetAssoc.{
  found, touch, SetAssocArray, find_from, first, find, lookup, preinsert, postinsert,
}

range-elem : (n first x : ℕ) → elem x (range first n) ≡ true → (first ≤ x) × (x < first + n)
range-elem zero first x h = cc
range-elem (suc n) first x h = ground (arith, range-elem n (suc first) x)

range-All : (n first : ℕ) → first + n ≤ no_cand → All (λ c. c < no_cand) (range first n)
range-All zero first h = tt
range-All (suc n) first h = (omega arith, range-All n (suc first) (omega arith))

range_nonempty : (n first : ℕ) → 0 < n → range first n ≢ []
range_nonempty zero first h e = omega arith
range_nonempty (suc n) first h e = cc

find_none :
    (n : ℕ) (a : Array ℕ) (addr id : ℕ)
    → find_from n a addr id ≡ none
    → (j : ℕ) → id ≤ j
    → j < id + n
    → a j ≢ addr
unfolding find_from
find_none zero a addr id h j p q = absurd (omega arith)
find_none (suc n) a addr id h j p q = elim (Bool-cases (a id == addr)) [
  | inl e ↦ let f : some id ≡ none = rw e at h in cc
  | inr e ↦
      let f : find_from n a addr (suc id) ≡ none = rw e at h in
      ground (arith, find_none n a addr (suc id) f j)
]

find_at :
    (n : ℕ) (a : Array ℕ) (addr id c : ℕ)
    → id ≤ c
    → c < id + n
    → a c ≡ addr
    → ((j : ℕ) → id ≤ j → j < c → a j ≢ addr)
    → find_from n a addr id ≡ some c
unfolding find_from
find_at zero a addr id c p q h before = absurd (omega arith)
find_at (suc n) a addr id c p q h before = elim (Bool-cases (id == c)) [
  | inl e ↦ ground (arith, h)
  | inr e ↦
      let other : (a id == addr) ≡ false = ground (arith, before id) in
      rw other (
        find_at n a addr (suc id) c (ground arith) (omega arith) h
          (λ j u w. before j (omega arith) w))
]

find_same :
    (n : ℕ) (a b : Array ℕ) (addr id : ℕ)
    → ((j : ℕ) → (a j == addr) ≡ (b j == addr))
    → find_from n a addr id ≡ find_from n b addr id
unfolding find_from
find_same zero a b addr id h = refl
find_same (suc n) a b addr id h = rw (h id, find_same n a b addr (suc id) h)

-- A lookup that updates the policy, of an address that the array holds.
pub lookup_hit :
    (hash : ℕ → ℕ → ℕ) (p : Policy) (g : SetAssocArray p.State) (addr : ℕ) (req : MemReq) (id : ℕ)
    (s : p.State)
    → find hash p g addr ≡ some id
    → p.update g.rp id req ≡ some s
    → lookup hash p g addr req true ≡ some (some id, record g { rp = s })
unfolding lookup found touch
lookup_hit hash p g addr req id s held updated = rw (held, updated)

module _ (hash : ℕ → ℕ → ℕ) (p : Policy) (laws : Laws p) where
  -- The geometry, and the policy's invariant.
  pub record IsValid (g : SetAssocArray p.State) : Type 0 where
    pub some_ways : 0 < g.assoc
    pub some_sets : 0 < g.num_sets
    pub fits : g.num_sets * g.assoc ≤ no_cand
    pub policy_ok : (laws.Inv) g.rp

  first_fits :
      (g : SetAssocArray p.State) (addr : ℕ) → IsValid g → first hash p g addr + g.assoc ≤ no_cand
  unfolding first
  first_fits g addr v =
      let below = mod-lt (hash 0 addr) {m = g.num_sets} v.some_sets in
      let step : (hash 0 addr % g.num_sets + 1) * g.assoc ≤ g.num_sets * g.assoc = grind arith in
      omega (arith, v.fits)

  candidates :
      (g : SetAssocArray p.State) (addr : ℕ)
      → IsValid g
      → IsCands (range (first hash p g addr) g.assoc)
  candidates g addr v = record {
    nonempty = range_nonempty g.assoc (first hash p g addr) v.some_ways;
    distinct = range-IsDistinct (first hash p g addr) g.assoc;
    ids = range-All g.assoc (first hash p g addr) (first_fits g addr v);
  }

  -- After the insertion of `addr` at `id`, which held `wb`.
  pub record Inserts (g : SetAssocArray p.State) (addr id wb : ℕ) (g2 : SetAssocArray p.State)
      : Type 0 where
    pub in_set : (first hash p g addr ≤ id) × (id < first hash p g addr + g.assoc)
    pub evicted : wb ≡ g.array id
    pub inserted : (req : MemReq) → lookup hash p g2 addr req false ≡ some (some id, g2)
    pub others : (b : ℕ) → b ≢ addr → b ≢ wb → find hash p g2 b ≡ find hash p g b
    pub valid : IsValid g2

  placed :
      (g : SetAssocArray p.State) (addr id : ℕ)
      → (first hash p g addr ≤ id) × (id < first hash p g addr + g.assoc)
      → find hash p g addr ≡ none
      → find_from g.assoc (write g.array id addr) addr (first hash p g addr) ≡ some id
  unfolding find
  placed g addr id (low, high) absent =
      find_at g.assoc (write g.array id addr) addr (first hash p g addr) id low high (ground arith)
        (λ j from below.
          ground (arith, find_none g.assoc g.array addr (first hash p g addr) absent j from))

  -- For a policy that keeps its laws, an address that the array does not hold is inserted by
  -- `preinsert` and `postinsert`: at a line of its set, where `lookup` finds it from then on, the
  -- line's old address is returned to be written back, and every other address is found where it was.
  pub insertion :
      (g : SetAssocArray p.State) (addr : ℕ) (req : MemReq)
      → IsValid g
      → find hash p g addr ≡ none
      → (id : ℕ) × (wb : ℕ) × (g1 : SetAssocArray p.State) × (g2 : SetAssocArray p.State)
        × (preinsert hash p g addr req ≡ some (id, wb, g1))
        × (postinsert hash p g1 addr req id ≡ some g2)
        × Inserts g addr id wb g2
  unfolding preinsert postinsert find first lookup
  insertion g addr req v absent =
      let (id, s, ranked, mem, ok) =
        (laws.rank_total) g.rp req (range (first hash p g addr) g.assoc) v.policy_ok
          (candidates g addr v) in
      let (t, filled, ok2) = (laws.insert_total) s id req ok in
      let inside = range-elem g.assoc (first hash p g addr) id mem in
      (
        id,
        g.array id,
        record g { rp = s },
        record g { array = write g.array id addr; rp = t },
        rw ranked,
        rw filled,
        record {
          in_set = inside;
          evicted = refl;
          inserted = λ r. rw (placed g addr id inside absent);
          others = λ b ne not_wb.
              find_same g.assoc (write g.array id addr) g.array b (first hash p g b)
                (λ j. ground arith);
          valid = record {
            some_ways = v.some_ways;
            some_sets = v.some_sets;
            fits = v.fits;
            policy_ok = ok2;
          };
        },
      )
