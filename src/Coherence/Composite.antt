-- ===== src/Coherence/Composite.antt =====
-- zsim/src/coherence_ctrls.h, class MESICC: the controller of a cache with children, a directory for each
-- line and the line's own state. A call of a parent may invalidate lines of this cache, and so change the
-- states, the directory and the rest of the world `W`; a call of a child changes the world. The locks
-- are not modelled. `none` is a failed assertion or a panic.
use csce614_group_project.Base.{
  ℕ, ◌+◌, Bool, true, false, not, ◌&&◌, ◌||◌, Option, none, some, Array, write, if◌then◌else◌,
  ◌>>=◌, ◌>>◌, require,
}
use csce614_group_project.Hierarchy.{
  AccessType, gets, getx, puts, putx, is_get, is_put, MesiState, MemReq, InvReq, prefetch, has_flag,
  clear_flag,
}
use csce614_group_project.Coherence.Bottom.{Bottom, Access}
use csce614_group_project.Coherence.Bottom
use csce614_group_project.Coherence.Top.{Entry, Children, Invalidate, Call}
use csce614_group_project.Coherence.Top
use csce614_group_project.Coherence.Race.{check_for_mesi_race}
pub mod Inval
pub mod Serve
mod Tests

pub record Composite : Type 0 where
  pub directory : Array Entry
  pub bcc : Bottom

-- `numSharers` and `isValid`, for the replacement policies
pub num_sharers : Composite → ℕ → ℕ
num_sharers c id = (c.directory id).num_sharers

pub is_valid : Composite → ℕ → Bool
is_valid c id = Bottom.is_valid c.bcc id

-- the constructor, `setParents` and `setChildren`
pub init : ℕ → ℕ → Bool → ℕ → (ℕ → ℕ) → Composite
init num_lines self_id nonincl_hack num_parents rtts = record {
  directory = λ id. Top.clear;
  bcc = Bottom.init num_lines self_id nonincl_hack num_parents rtts;
}

-- `startAccess`, between the locks: whether to skip the access, and its type
pub start_access : AccessType → MesiState → MesiState → Option (Bool × AccessType)
start_access type child_state initial = check_for_mesi_race type child_state initial

pub should_allocate : Composite → AccessType → Option Bool
should_allocate c type =
    if is_get type then some true else (require c.bcc.nonincl_hack >> some false)

pub record Reply (W : Type 0) : Type 0 where
  pub cycle : ℕ
  pub cc : Composite
  pub world : W

-- The answer to a child: `*getDoneCycle` where it is written, and the child's state.
pub record Answer (W : Type 0) : Type 0 where
  pub reply : Reply W
  pub get_done_cycle : Option ℕ
  pub child_state : MesiState

abbrev pub is_gets : AccessType → Bool
is_gets gets = true
is_gets _ = false

-- a writeback of a child makes the line dirty
pub note_writeback : Bool → Bottom → ℕ → Option Bottom
note_writeback true b id = Bottom.process_writeback_on_access b id
note_writeback false b id = some b

module _ {W : Type 0} (access : Access (Array Entry × W)) (k : Children)
    (invalidate : Invalidate W) where
  pub process_eviction : Composite → MemReq → ℕ → ℕ → ℕ → W → Option (Reply W)
  process_eviction c trigger wb_addr id cycle w = do
    t ← Top.process_eviction k invalidate wb_addr (c.directory id) false cycle trigger.src_id w
    b ←
        Bottom.process_eviction access c.bcc wb_addr id t.writeback t.cycle trigger.src_id
          trigger.pc (write c.directory id t.entry, t.world)
    some (record {
      cycle = b.cycle;
      cc = record { directory = b.world.0; bcc = b.bottom };
      world = b.world.1;
    })

  -- a put of a line that the cache does not hold goes to the parent
  pub bypass : Composite → MemReq → AccessType → MesiState → ℕ → W → Option (Answer W)
  bypass c req type child_state cycle w = do
    require c.bcc.nonincl_hack
    require (is_put type)
    (child_state', b) ←
        Bottom.process_noninclusive_writeback access c.bcc req.line_addr type cycle child_state
          req.src_id req.flags req.pc (c.directory, w)
    some (record {
      reply = record {
        cycle = b.cycle;
        cc = record { directory = b.world.0; bcc = b.bottom };
        world = b.world.1;
      };
      get_done_cycle = none;
      child_state = child_state';
    })

  -- the directory's part of an access
  pub answer_child : Composite → MemReq → AccessType → ℕ → MesiState → ℕ → W → Option (Answer W)
  answer_child c req type id child_state cycle w = do
    g ←
        Top.process_access k invalidate type
          (record {
            line_addr = req.line_addr;
            child_id = req.child_id;
            have_exclusive = Bottom.is_exclusive c.bcc id;
            cycle = cycle;
            src_id = req.src_id;
            flags = clear_flag req.flags prefetch;
          })
          child_state (c.directory id) false w
    b ← note_writeback g.reply.writeback c.bcc id
    some (record {
      reply = record {
        cycle = g.reply.cycle;
        cc = record { directory = write c.directory id g.reply.entry; bcc = b };
        world = g.reply.world;
      };
      get_done_cycle = some cycle;
      child_state = g.child_state;
    })

  pub serve : Composite → MemReq → AccessType → ℕ → MesiState → ℕ → W → Option (Answer W)
  serve c req type id child_state cycle w = do
    require (not (has_flag req.flags prefetch) || is_gets type)
    b ←
        Bottom.process_access access c.bcc req.line_addr id type cycle req.src_id
          (clear_flag req.flags prefetch) req.pc (c.directory, w)
    let c' : Composite = record { directory = b.world.0; bcc = b.bottom }
    let done : Answer W = record {
      reply = record { cycle = b.cycle; cc = c'; world = b.world.1 };
      get_done_cycle = some b.cycle;
      child_state = child_state;
    }
    let answered = answer_child c' req type id child_state b.cycle b.world.1
    if has_flag req.flags prefetch then some done else answered

  -- `none` as the line is -1
  pub process_access :
      Composite → MemReq → AccessType → Option ℕ → MesiState → ℕ → W → Option (Answer W)
  process_access c req type none child_state cycle w = bypass c req type child_state cycle w
  process_access c req type (some id) child_state cycle w =
      if is_put type && not (Bottom.is_valid c.bcc id)
      then bypass c req type child_state cycle w
      else serve c req type id child_state cycle w

  -- the response cycle, whether to write back, the controller and the world
  pub process_inv : Composite → InvReq → ℕ → W → Option (Bool × Reply W)
  process_inv c req id w = do
    t ← Top.process_inval k invalidate req (c.directory id) false w
    (dirty, bcc) ← Bottom.process_inval c.bcc id req.type
    some (
      t.writeback || dirty,
      record {
        cycle = t.cycle;
        cc = record { directory = write c.directory id t.entry; bcc = bcc };
        world = t.world;
      },
    )
