-- ===== src/Repl/WayPart/Accounts.antt =====
-- zsim/src/part_repl_policies.h: the accounts of WayPartReplPolicy after a use and a replacement.
use csce614_group_project.Base.{
  weight, count, count-write, count-pos, count-le, ℕ, suc, ◌+◌, ◌<◌, ◌≤◌, ◌≡◌, ◌≢◌, refl, inl, inr,
  Bool, true, false, Array, write, ltb, ◌==◌, if◌then◌else◌, Bool-cases, arith,
}
use csce614_group_project.Repl.WayPart.{
  PartInfo, WayPartInfo, WayPart, count_hit, transfer, keep_part, count_miss, account, update,
  replaced,
}

-- what the constructor's array holds
abbrev pub empty_line : WayPartInfo
empty_line = record { addr = 0; ts = 0; p = 0 }

abbrev pub in_part : ℕ → WayPartInfo → Bool
in_part p e = e.p == p

pub record IsAccounted {M : Type 0} (r : WayPart M) : Type 0 where
  pub small : r.total_size < 18446744073709551616
  pub exact : (p : ℕ) → (r.part_info p).size ≡ count (in_part p) r.total_size r.array

count_hit-size : (infos : Array PartInfo) (p q : ℕ) → (count_hit infos p q).size ≡ (infos q).size
unfolding count_hit
count_hit-size infos p q = ground arith

count_miss-size : (infos : Array PartInfo) (p q : ℕ) → (count_miss infos p q).size ≡ (infos q).size
unfolding count_miss
count_miss-size infos p q = ground arith

keep_part-size : (infos : Array PartInfo) (p q : ℕ) → (keep_part infos p q).size ≡ (infos q).size
unfolding keep_part
keep_part-size infos p q = ground arith

transfer-size :
    (infos : Array PartInfo) (old_part new_part q : ℕ)
    → old_part ≢ new_part
    → 0 < (infos old_part).size
    → (infos old_part).size < 18446744073709551616
    → suc (infos new_part).size < 18446744073709551616
    → (transfer infos old_part new_part q).size + weight (old_part == q)
      ≡ (infos q).size + weight (new_part == q)
unfolding transfer
transfer-size infos old_part new_part q differ some_lines fits room = ground arith

module _ {M : Type 0} (r : WayPart M) (h : IsAccounted r) where
  open h use {small, exact}

  -- the line's partition, after a use
  abbrev part_after : ℕ → ℕ
  part_after id = if ltb 0 (r.array id).ts then (r.array id).p else r.incoming_line_part

  fits : (q : ℕ) → (r.part_info q).size ≤ r.total_size
  fits q = omega (arith, exact q, count-le (in_part q) r.total_size r.array)

  has_line : (id : ℕ) → id < r.total_size → 0 < (r.part_info (r.array id).p).size
  has_line id low = omega (
    arith,
    exact (r.array id).p,
    count-pos (in_part (r.array id).p) r.total_size r.array id low (ground arith),
  )

  room_for :
      (id q : ℕ) → id < r.total_size → (r.array id).p ≢ q → (r.part_info q).size < r.total_size
  room_for id q low differ =
      let moved : WayPartInfo = record (r.array id) { p = q } in
      let out : in_part q (r.array id) ≡ false = ground arith in
      let now : in_part q moved ≡ true = ground arith in
      ground (
        arith,
        out,
        now,
        exact q,
        count-write (in_part q) r.total_size r.array id moved low,
        count-le (in_part q) r.total_size (write r.array id moved),
      )

  account-size :
      (id q : ℕ)
      → id < r.total_size
      → (account r id q).size + weight ((r.array id).p == q)
        ≡ (r.part_info q).size + weight (part_after id == q)
  unfolding account
  account-size id q low = elim (Bool-cases (ltb 0 (r.array id).ts)) [
    | inl p ↦ rw (p, count_hit-size r.part_info (r.array id).p q) refl
    | inr p ↦ elim (Bool-cases ((r.array id).p == r.incoming_line_part)) [
      | inl same ↦
          let e : (r.array id).p ≡ r.incoming_line_part = ground arith in
          rw
            (
              p,
              same,
              count_miss-size (keep_part r.part_info (r.array id).p) r.incoming_line_part q,
              keep_part-size r.part_info (r.array id).p q,
            )
            (rw e refl)
      | inr other ↦
          let differ : (r.array id).p ≢ r.incoming_line_part = ground arith in
          rw
            (
              p,
              other,
              count_miss-size (transfer r.part_info (r.array id).p r.incoming_line_part)
                  r.incoming_line_part q,
            )
            (transfer-size r.part_info (r.array id).p r.incoming_line_part q differ
              (has_line id low) (omega (arith, fits (r.array id).p))
              (omega (arith, room_for id r.incoming_line_part low differ)))
    ]
  ]

  -- A use of a line, a hit or the use after a replacement, keeps the accounts exact.
  pub update-IsAccounted :
      (access : M → ℕ → ℕ → M) (id : ℕ) → id < r.total_size → IsAccounted (update access r id)
  unfolding update
  update-IsAccounted access id low = record {
    small = small;
    exact = λ q.
        let now : WayPartInfo = record (r.array id) { p = part_after id; ts = r.timestamp } in
        omega (
          arith,
          exact q,
          account-size id q low,
          count-write (in_part q) r.total_size r.array id now low,
        );
  }

  pub replaced-IsAccounted : (id : ℕ) → id < r.total_size → IsAccounted (replaced r id)
  unfolding replaced
  replaced-IsAccounted id low = record {
    small = small;
    exact = λ q. omega (
      arith,
      exact q,
      count-write (in_part q) r.total_size r.array id
          (record (r.array id) { ts = 0; addr = r.incoming_line_addr }) low,
    );
  }
