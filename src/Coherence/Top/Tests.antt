-- ===== src/Coherence/Top/Tests.antt =====
-- A directory of two children: child 0 reads the line, and child 1 then writes it.
use csce614_group_project.Base.{ℕ, ◌≡◌, refl, true, false, some, write, arith}
use csce614_group_project.Hierarchy.{AccessType, MesiState, InvReq, InvType, has_flag}
use csce614_group_project.Coherence.Bottom.{inval_line}
use csce614_group_project.Coherence.Top.{
  Children, clear, Call, Grant, process_access, process_inval, process_eviction, is_empty,
  is_exclusive, give_exclusive, drop_upgrader, sent, send_invalidates,
}
use csce614_group_project.Coherence.Top.Directory.{invalidate_child}
use csce614_group_project.Coherence.Top.Invals.{
  Sends, Empties, process_inval-Sends, process_eviction-Empties,
}
use csce614_group_project.Coherence.Top.Swmr.{
  Line, start, start-True, after_grant, request, Reach, at_start, then_step, single_writer,
}

abbrev two : Children
two = record { num_children = 2; children_rtts = λ c. 0; nonincl_hack = false }

abbrev call : ℕ → Call
call child = record {
  line_addr = 5;
  child_id = child;
  have_exclusive = true;
  cycle = 10;
  src_id = 0;
  flags = 0;
}

read : Grant (ℕ → MesiState)
read = record {
  reply = record {
    cycle = 10;
    entry = record { sharers = write (λ c. false) 0 true; num_sharers = 1; exclusive = true };
    writeback = false;
    world = λ c. MesiState.i;
  };
  child_state = MesiState.e;
}

after_read : Line
after_read = after_grant (call 0) read

written : Grant (ℕ → MesiState)
unfolding read
written = record {
  reply = record {
    cycle = 10;
    entry = record {
      sharers = write (write (write (λ c. false) 0 true) 0 false) 1 true;
      num_sharers = 1;
      exclusive = true;
    };
    writeback = false;
    world = write (write (λ c. MesiState.i) 0 MesiState.e) 0 MesiState.i;
  };
  child_state = MesiState.m;
}

after_write : Line
after_write = after_grant (call 1) written

read_run :
    process_access two
      (invalidate_child 0)
      AccessType.gets
      (call 0)
      (start.states 0)
      start.entry
      false
      start.states
    ≡ some read
unfolding process_access is_empty has_flag read start clear
read_run = refl

write_run :
    process_access two
      (invalidate_child 0)
      AccessType.getx
      (call 1)
      (after_read.states 1)
      after_read.entry
      false
      after_read.states
    ≡ some written
unfolding process_access give_exclusive drop_upgrader sent send_invalidates is_exclusive
    invalidate_child inval_line after_read after_grant read written
write_run = refl

Reach-written : Reach two after_write
unfolding start after_grant after_read read after_write written
Reach-written =
    then_step after_read after_write
      (then_step start after_read at_start (
        request 0 AccessType.gets (call 0) false
          (record { child = omega arith; legal = refl; permitted = λ e. refl }) read read_run))
      (request 0 AccessType.getx (call 1) false
        (record { child = omega arith; legal = refl; permitted = λ e. refl }) written write_run)

single_writer_example : after_write.states 0 ≡ MesiState.i
unfolding after_write after_grant written
single_writer_example =
    single_writer two refl (omega arith) after_write Reach-written 1 0 refl (omega arith)

abbrev inval : InvReq
inval = record { line_addr = 5; type = InvType.invx; cycle = 10; src_id = 0 }

process_inval_example :
    Sends two 0 start.entry start.states false
      (start-True two (omega arith))
      (process_inval two (invalidate_child 0) inval start.entry false start.states)
process_inval_example =
    process_inval-Sends two 0 start.entry start.states false (start-True two (omega arith)) refl
      inval

process_eviction_example :
    Empties two 0 start.entry start.states false
      (start-True two (omega arith))
      (process_eviction two (invalidate_child 0) 5 start.entry false 10 0 start.states)
process_eviction_example =
    process_eviction-Empties two 0 start.entry start.states false (start-True two (omega arith))
      refl 5 10 0
