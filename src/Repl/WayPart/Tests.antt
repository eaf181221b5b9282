-- ===== src/Repl/WayPart/Tests.antt =====
-- Four lines in four ways, two for each of two partitions.
use csce614_group_project.Base.{
  ℕ, suc, ◌≡◌, refl, true, false, Option, none, some, [], ◌∷◌, All, elem, count, arith,
}
use csce614_group_project.Hierarchy.{MemReq, gets, MesiState}
use csce614_group_project.Repl.WayPart.{
  WayPart, init, assign_ways, update, account, count_miss, keep_part, transfer, start_replacement,
  record_candidate, record_all, beats, better, rank, get_best_candidate, replaced,
}
use csce614_group_project.Repl.WayPart.Sizes.{
  Reach, start, later, uses, replaces, starts, sizes_exact,
}
use csce614_group_project.Repl.WayPart.Accounts.{in_part}
use csce614_group_project.Repl.WayPart.Victim.{fill_ids, Precedes, rank-Precedes}

abbrev req : MemReq
req = record {
  line_addr = 9;
  type = gets;
  child_id = 0;
  cycle = 0;
  initial_state = MesiState.i;
  src_id = 1;
  flags = 0;
  pc = 0;
}

abbrev seen : ℕ → ℕ → ℕ → ℕ
seen n p addr = suc n

abbrev policy_of : Option (WayPart ℕ) → WayPart ℕ
policy_of (some r) = r
policy_of none = record {
  part_info = λ i. record {
    size = 0;
    target_size = 0;
    prof_hits = 0;
    prof_misses = 0;
    prof_self_evictions = 0;
    prof_ext_evictions = 0;
  };
  partitions = 0;
  total_size = 0;
  way_size = 0;
  ways = 0;
  array = λ i. record { addr = 0; ts = 0; p = 0 };
  way_part_index = λ i. 0;
  test_mode = false;
  best_id = none;
  cand_idx = 0;
  incoming_line_part = 0;
  incoming_line_addr = 0;
  timestamp = 0;
  monitor = 0;
}

abbrev fresh : WayPart ℕ
fresh = policy_of (init 2 4 4 false 0 0 0)

abbrev started : WayPart ℕ
started = policy_of (start_replacement (λ r. r.src_id) fresh req)

-- a request of partition 1 takes line 2, which was of partition 0
abbrev filled : WayPart ℕ
filled = update seen (replaced started 2) 2

sizes_after : ((filled.part_info 0).size ≡ 3) × ((filled.part_info 1).size ≡ 1)
unfolding init assign_ways start_replacement replaced update account count_miss keep_part transfer
sizes_after = (refl, refl)

fresh_is : init 2 4 4 false 0 0 0 ≡ some fresh
unfolding init assign_ways
fresh_is = refl

filled_reached : Reach (λ r. r.src_id) seen fresh filled
unfolding init assign_ways start_replacement replaced
filled_reached =
    later (later (later start (starts req refl)) (replaces 2 (omega arith))) (uses 2 (omega arith))

sizes_exact_example : (filled.part_info 1).size ≡ count (in_part 1) filled.total_size filled.array
sizes_exact_example =
    sizes_exact (λ r. r.src_id) seen 2 4 4 false 0 0 0 fresh_is (omega arith) filled_reached 1

rank_result :
    (best : ℕ) × (r' : WayPart ℕ) × (rank (λ r. r.src_id) fresh req (0 ∷ 1 ∷ 2 ∷ 3 ∷ [])
      ≡ some (best, r'))
    × (best ≡ 2)
unfolding init assign_ways rank start_replacement record_all record_candidate beats better
    get_best_candidate
rank_result = (2, _, refl, refl)

rank-Precedes_example :
    let r₁ = record fresh { incoming_line_part = 1; incoming_line_addr = 9 } in
    (best : ℕ) × (r' : WayPart ℕ) × (rank (λ r. r.src_id) fresh req (0 ∷ 1 ∷ 2 ∷ 3 ∷ [])
      ≡ some (best, r'))
    × (elem best (fill_ids r₁ 0 (0 ∷ 1 ∷ 2 ∷ 3 ∷ [])) ≡ true)
    × All (Precedes r₁ best) (fill_ids r₁ 0 (0 ∷ 1 ∷ 2 ∷ 3 ∷ []))
unfolding init assign_ways
rank-Precedes_example =
    rank-Precedes (λ r. r.src_id) fresh req (0 ∷ 1 ∷ 2 ∷ 3 ∷ []) refl refl (omega arith)
      (omega arith) (λ e. cc)
