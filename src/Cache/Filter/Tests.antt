-- ===== src/Cache/Filter/Tests.antt =====
-- A filter of 4 sets, over a cache that answers after 5 cycles and leaves the entries alone.
use csce614_group_project.Base.{write, ℕ, ◌+◌, ◌/◌, ◌%◌, ◌^◌, ◌≤◌, ◌≡◌, refl, true, some, arith}
use csce614_group_project.Hierarchy.{InvReq, InvType}
use csce614_group_project.Cache.Filter.{
  Filter, Process, Access, Finish, init, cleared, no_addr, load, replace, request, invalidate,
}
use csce614_group_project.Cache.Filter.Stale.{
  Paired, Forgets, init-Paired, invalidate-Forgets, replace_then_hit,
}

abbrev first_process : Process
first_process = record { proc_mask = 1024; line_bits = 6 }

abbrev answers : Access ℕ
answers req entries w = some (req.cycle + 5, entries, w)

abbrev finishes : Finish ℕ
finishes req w = some (req.cycle + 3, w)

abbrev inval_9 : InvReq
inval_9 = record { line_addr = 1033; type = InvType.inv; cycle = 50; src_id = 0 }

invalidate_example :
    (q : Filter) × (invalidate first_process answers finishes (init 4) inval_9 7 ≡ some (53, q, 7))
    × Forgets first_process answers finishes q 9
unfolding init
invalidate_example =
    invalidate-Forgets first_process answers finishes first_process (init 4) 9 inval_9 7 7 53 refl
      (init-Paired 4) (omega arith) refl refl refl

abbrev second_process : Process
second_process = record { proc_mask = 2048; line_bits = 6 }

-- the first process has read line 9
abbrev reader : Filter
reader = record {
  filter_array =
      write (λ idx. cleared) 1 (record { rd_addr = 9; wr_addr = no_addr; avail_cycle = 40 });
  num_sets = 4;
  src_id = 0;
  req_flags = 0;
  fgets_hit = 0;
  fgetx_hit = 0;
}

replace_then_hit_example :
    (q : Filter) × (cycle : ℕ) × (replace first_process answers finishes
        (init 4)
        (600 / 2 ^ 6)
        (600 / 2 ^ 6 % 4)
        true
        100
        400
        7
      ≡ some (105, q, 7))
    × Paired q
    × (load first_process answers finishes q 600 110 404 7
        ≡ some (cycle, record q { fgets_hit = q.fgets_hit + 1 }, 7))
    × (110 ≤ cycle)
unfolding init request
replace_then_hit_example =
    replace_then_hit first_process answers finishes (init 4) 600 true 100 400 7 7 7 105 110 404
      (init 4).filter_array refl (init-Paired 4)
