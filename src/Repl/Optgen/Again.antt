-- ===== src/Repl/Optgen/Again.antt =====
-- Two accesses to one address in a row. The replacement policy makes both on every miss: `rank`
-- accesses OPTgen, and the `update` that follows it accesses OPTgen again.
use csce614_group_project.Base.{
  ℕ, ◌+◌, ◌*◌, ◌≤◌, ◌<◌, ◌≡◌, ◌≢◌, refl, Bool, true, arith, add32, ◌==◌, ◌∙◌, inl, inr, some,
  Bool-cases, ==_iff, ap, sym,
}
use csce614_group_project.Repl.Optgen.{Optgen, cache_access, now}
use csce614_group_project.Repl.Optgen.Ring.{forward, wrap_index-suc}
use csce614_group_project.Repl.Optgen.Laws.{
  IsValid, Decides, first_access, reuse_hit, reuse_miss, Records, cache_access-Decides, Newest,
  now-lt,
}
use csce614_group_project.Repl.Optgen.Capacity.{Decides-IsValid}

module _ (g g2 : Optgen) (address set : ℕ) (v : IsValid g) (on : g.is_sampled set ≡ true)
    (rec : Records g address set g2) where
  now_next : now g2 set ≡ forward g.vector_size (now g set)
  unfolding now
  now_next =
      rw (rec.same_shape.0, rec.count)
        (ground (arith, wrap_index-suc g.vector_size (add32 (g.access_count set) 1) v.ring))

  recorded_here : g2.history (set * g.vector_size + now g set) ≡ address
  recorded_here = rw rec.history (ground arith)

  -- The slot of the first access is still empty when the second looks at it.
  empty_here :
      (hit : Bool)
      → Decides g address set g2 hit
      → g2.occupancy_vector (set * g.vector_size + now g set) ≡ 0
  empty_here hit (first_access _ e) = rw e (ground arith)
  empty_here hit (reuse_hit idx _ room occ) =
      occ.counted (now g set) (now-lt g address set v on) ∙ (ground arith)
  empty_here hit (reuse_miss idx _ _ e) = rw e (ground arith)

  now_next2 : now g2 set ≡ forward g2.vector_size (now g set)
  now_next2 = now_next ∙ (ap (λ size. forward size (now g set)) (sym rec.same_shape.0))

  recorded_here2 : g2.history (set * g2.vector_size + now g set) ≡ address
  recorded_here2 = rw rec.same_shape.0 recorded_here

  here-lt : now g set < g2.vector_size
  here-lt = rw rec.same_shape.0 (now-lt g address set v on)

  wide2 : 2 ≤ g2.vector_size
  wide2 = rw rec.same_shape.0 v.wide

  apart : now g set ≢ now g2 set
  apart e = ground (arith, now_next2, here-lt, wide2)

  -- The search of the second access stops at the slot of the first.
  Newest-here : (idx : ℕ) → Newest g2 address set idx → idx ≡ now g set
  Newest-here idx n = elim (Bool-cases (idx == now g set)) [
    | inl e ↦ (==_iff idx (now g set)).0 e
    | inr ne ↦ absurd (
        n.newest (now g set) here-lt apart
          (ground (arith, now_next2, here-lt, wide2, n.inside, n.earlier)) recorded_here2)
  ]

  second_hit :
      (g3 : Optgen) (hit b : Bool)
      → Decides g address set g2 hit
      → Decides g2 address set g3 b
      → b ≡ true
  second_hit g3 hit b d (first_access f e) = absurd (f (now g set) here-lt apart recorded_here2)
  second_hit g3 hit b d (reuse_hit idx n room occ) = refl
  second_hit g3 hit b d (reuse_miss idx n (k, q, w, full) e) =
      let same = Newest-here idx n in
      let only : k ≡ now g set = ground (arith, same, now_next2, here-lt, wide2) in
      let free = empty_here hit d in
      absurd (ground (arith, only, apart, free, rec.same_shape.0, rec.same_shape.1, v.ways))

-- From valid arrays, among them a number of slots that divides 2^32, with more fuel than slots: of
-- two accesses to one address of a sampled set in a row, the second is a hit for OPTgen, and the set
-- stays sampled, with as many slots.
pub cache_access_again :
    (f : ℕ) (g : Optgen) (address set : ℕ)
    → IsValid g
    → g.is_sampled set ≡ true
    → g.vector_size < f
    → (hit : Bool) × (g2 : Optgen) × (g3 : Optgen) × (cache_access f g address set ≡ some (hit, g2))
      × (cache_access f g2 address set ≡ some (true, g3))
      × (g2.is_sampled set ≡ true)
      × (g2.vector_size ≡ g.vector_size)
cache_access_again f g address set v on enough =
    let (r, run, (d, rec)) = cache_access-Decides g address set v on f enough in
    let w = Decides-IsValid g r.1 address set v r.0 d rec in
    let on2 : r.1.is_sampled set ≡ true = rw rec.same_shape.2 on in
    let enough2 : r.1.vector_size < f = rw rec.same_shape.0 enough in
    let (t, run2, (d2, rec2)) = cache_access-Decides r.1 address set w on2 f enough2 in
    let hit2 = second_hit g r.1 address set v on rec t.1 r.0 t.0 d d2 in
    (r.0, r.1, t.1, run, run2 ∙ (ap (λ b. some (b, t.1)) hit2), on2, rec.same_shape.0)
