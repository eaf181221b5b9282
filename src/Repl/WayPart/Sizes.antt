-- ===== src/Repl/WayPart/Sizes.antt =====
-- zsim/src/part_repl_policies.h: the size that WayPartReplPolicy keeps of a partition, against its lines.
use mathlib.Core.Option.{some-injective, none-ne-some}
use csce614_group_project.Base.{
  count, count-all, count-zero, ℕ, zero, suc, ◌+◌, ◌<◌, ◌≡◌, ◌∙◌, refl, sym, subst, inl, inr, Bool,
  true, false, some, Array, ltb, ◌==◌, ◌>>◌, require, Bool-cases, arith,
}
use csce614_group_project.Hierarchy.{MemReq}
use csce614_group_project.Repl.WayPart.{
  WayPart, assign_ways, init, update, start_replacement, record_candidate, replaced, give_all,
  set_partition_sizes,
}
use csce614_group_project.Repl.WayPart.Accounts.{
  in_part, IsAccounted, update-IsAccounted, replaced-IsAccounted, empty_line,
}

same-IsAccounted :
    {M : Type 0} {r r' : WayPart M}
    → IsAccounted r
    → r'.total_size ≡ r.total_size
    → r'.array ≡ r.array
    → ((q : ℕ) → (r'.part_info q).size ≡ (r.part_info q).size)
    → IsAccounted r'
same-IsAccounted h e e' sizes = record {
  small = omega (arith, h.small);
  exact = λ q. rw (e, e') (sizes q ∙ h.exact q);
}

-- what a call that is asserted returns
checked : {A : Type 0} (b : Bool) {x y : A} → (require b >> some x) ≡ some y → x ≡ y
checked true e = some-injective _ _ e
checked false e = absurd (none-ne-some _ e)

checked_twice :
    {A : Type 0} (b c : Bool) {x y : A} → (require b >> (require c >> some x)) ≡ some y → x ≡ y
checked_twice true c e = checked c e
checked_twice false c e = absurd (none-ne-some _ e)

module _ {M : Type 0} where
  assign_ways-IsAccounted :
      (n w : ℕ) (r : WayPart M) → IsAccounted r → IsAccounted (assign_ways n w r)
  unfolding assign_ways
  assign_ways-IsAccounted zero w r h = h
  assign_ways-IsAccounted (suc n) w r h =
      assign_ways-IsAccounted n (suc w) _ (same-IsAccounted h refl refl (λ q. ground arith))

  give_all-IsAccounted :
      (n p cur_way : ℕ) (ways_part : Array ℕ) (r : WayPart M)
      → IsAccounted r
      → IsAccounted (give_all n p cur_way ways_part r).0
  unfolding give_all
  give_all-IsAccounted zero p cur_way ways_part r h = h
  give_all-IsAccounted (suc n) p cur_way ways_part r h =
      give_all-IsAccounted n (suc p) (cur_way + ways_part p) ways_part _
        (same-IsAccounted h refl refl (λ q. ground arith))

  start_replacement-IsAccounted :
      (get_partition : MemReq → ℕ) (r r' : WayPart M) (req : MemReq)
      → IsAccounted r
      → start_replacement get_partition r req ≡ some r'
      → IsAccounted r'
  unfolding start_replacement
  start_replacement-IsAccounted get_partition r r' req h e =
      subst IsAccounted (checked_twice (r.cand_idx == 0) _ e)
        (same-IsAccounted h refl refl (λ q. refl))

  record_candidate-IsAccounted :
      (r r' : WayPart M) (id : ℕ) → IsAccounted r → record_candidate r id ≡ some r' → IsAccounted r'
  unfolding record_candidate
  record_candidate-IsAccounted r r' id h e =
      subst IsAccounted (checked (ltb r.cand_idx r.ways) e)
        (same-IsAccounted h refl refl (λ q. refl))

  set_partition_sizes-IsAccounted :
      (r r' : WayPart M) (ways_part : Array ℕ)
      → IsAccounted r
      → set_partition_sizes r ways_part ≡ some r'
      → IsAccounted r'
  unfolding set_partition_sizes
  set_partition_sizes-IsAccounted r r' ways_part h e =
      subst IsAccounted (checked _ e) (give_all-IsAccounted r.partitions 0 0 ways_part r h)

  init-IsAccounted :
      {r : WayPart M} (partitions lines ways : ℕ) (test_mode : Bool) (line_part line_addr : ℕ)
      (monitor : M)
      → init partitions lines ways test_mode line_part line_addr monitor ≡ some r
      → lines < 18446744073709551616
      → IsAccounted r
  unfolding init
  init-IsAccounted partitions lines ways test_mode line_part line_addr monitor e small =
      subst IsAccounted (checked _ e) (
        assign_ways-IsAccounted ways 0 _ (record {
          small = small;
          exact = λ q. elim (Bool-cases (q == 0)) [
            | inl p ↦
                let z : q ≡ 0 = ground arith in
                rw z (sym (count-all (in_part 0) lines (λ id. empty_line) (λ t ht. refl)))
            | inr p ↦
                ground
                  (arith, count-zero (in_part q) lines (λ id. empty_line) (λ t ht. ground arith))
          ];
        }))

  module _ (get_partition : MemReq → ℕ) (access : M → ℕ → ℕ → M) where
    -- the calls of the array and of the partitioner, in any order
    pub data Step (r : WayPart M) : WayPart M → Type 0 where
      uses : (id : ℕ) → id < r.total_size → Step r (update access r id)
      starts :
          {r' : WayPart M} (req : MemReq)
          → start_replacement get_partition r req ≡ some r'
          → Step r r'
      records : {r' : WayPart M} (id : ℕ) → record_candidate r id ≡ some r' → Step r r'
      replaces : (id : ℕ) → id < r.total_size → Step r (replaced r id)
      resizes :
          {r' : WayPart M} (ways_part : Array ℕ)
          → set_partition_sizes r ways_part ≡ some r'
          → Step r r'

    pub data Reach (r : WayPart M) : WayPart M → Type 0 where
      start : Reach r r
      later : {r₁ r₂ : WayPart M} → Reach r r₁ → Step r₁ r₂ → Reach r r₂

    step-IsAccounted : {r r' : WayPart M} → IsAccounted r → Step r r' → IsAccounted r'
    step-IsAccounted {r} h (uses id low) = update-IsAccounted r h access id low
    step-IsAccounted {r} {r'} h (starts req e) =
        start_replacement-IsAccounted get_partition r r' req h e
    step-IsAccounted {r} {r'} h (records id e) = record_candidate-IsAccounted r r' id h e
    step-IsAccounted {r} h (replaces id low) = replaced-IsAccounted r h id low
    step-IsAccounted {r} {r'} h (resizes ways_part e) =
        set_partition_sizes-IsAccounted r r' ways_part h e

    reach-IsAccounted : {r r' : WayPart M} → IsAccounted r → Reach r r' → IsAccounted r'
    reach-IsAccounted h start = h
    reach-IsAccounted h (later steps st) = step-IsAccounted (reach-IsAccounted h steps) st

    -- From the constructor on, after any uses, replacements and resizings, the size kept of each partition
    -- is the number of the lines that belong to it.
    pub sizes_exact :
        {r r' : WayPart M} (partitions lines ways : ℕ) (test_mode : Bool) (line_part line_addr : ℕ)
        (monitor : M)
        → init partitions lines ways test_mode line_part line_addr monitor ≡ some r
        → lines < 18446744073709551616
        → Reach r r'
        → (p : ℕ) → (r'.part_info p).size ≡ count (in_part p) r'.total_size r'.array
    sizes_exact partitions lines ways test_mode line_part line_addr monitor e small steps =
        (reach-IsAccounted
          (init-IsAccounted partitions lines ways test_mode line_part line_addr monitor e small)
          steps).exact
