-- ===== src/Coherence/Top.antt =====
-- class MESITopCC: the directory of one cache. It keeps, for a line, which children hold it and
-- whether one of them holds it exclusively. The children are the argument `invalidate`: the call
-- of `children[c]->invalidate(req)`, with its response cycle and whether it asked for a writeback.
-- `none` is a failed assertion or a panic.
use csce614_group_project.Base.{
  ℕ, zero, suc, ◌+◌, ◌-◌, ◌%◌, Bool, true, false, not, ◌&&◌, ◌||◌, Option, none, some, Array, write,
  ◌==◌, ltb, if◌then◌else◌, ◌>>=◌, ◌>>◌, require, max, add32, sub32, add64,
}
use csce614_group_project.Hierarchy.{
  AccessType, gets, getx, puts, putx, InvType, inv, invx, fwd, MesiState, i, s, e, m, InvReq, is_m,
  has_flag, noexcl, putx_keepexcl,
}
pub mod Count
pub mod Loop
pub mod Send
pub mod Directory
pub mod Coherent
pub mod Grants
pub mod Upgrade
pub mod Invals
pub mod Swmr
pub mod Outcome
mod Tests

pub record Entry : Type 0 where
  pub num_sharers : ℕ
  pub sharers : Array Bool
  pub exclusive : Bool

pub clear : Entry
clear = record { num_sharers = 0; sharers = λ c. false; exclusive = false }

pub is_empty : Entry → Bool
is_empty d = d.num_sharers == 0

pub is_exclusive : Entry → Bool
is_exclusive d = d.num_sharers == 1 && d.exclusive

-- What the calls of one controller share: the number of children and the network's round trips.
pub record Children : Type 0 where
  pub num_children : ℕ
  pub children_rtts : ℕ → ℕ
  pub nonincl_hack : Bool

abbrev pub Invalidate : Type 0 → Type 0
Invalidate W = ℕ → InvReq → W → Option (ℕ × Bool × W)

-- the variables of the loop of `sendInvalidates`
pub record Sending (W : Type 0) : Type 0 where
  pub sharers : Array Bool
  pub max_cycle : ℕ
  pub sent_invs : ℕ
  pub writeback : Bool
  pub world : W

pub record Reply (W : Type 0) : Type 0 where
  pub cycle : ℕ
  pub entry : Entry
  pub writeback : Bool
  pub world : W

abbrev pub is_inv : InvType → Bool
is_inv inv = true
is_inv invx = false
is_inv fwd = false

-- the answer to a child: the reply, and the child's new state (`*childState`)
pub record Grant (W : Type 0) : Type 0 where
  pub reply : Reply W
  pub child_state : MesiState

-- what `processAccess` is called with besides the entry and the child's state
pub record Call : Type 0 where
  pub line_addr : ℕ
  pub child_id : ℕ
  pub have_exclusive : Bool
  pub cycle : ℕ
  pub src_id : ℕ
  pub flags : ℕ

module _ {W : Type 0} (k : Children) (invalidate : Invalidate W) where
  -- one round of the loop, for the child `c`
  pub send_one : InvReq → ℕ → Sending W → Option (Sending W)
  send_one req c st =
      if st.sharers c
      then (do
        (resp, pulled, w) ← invalidate c req st.world
        some (record {
          sharers = (if is_inv req.type then write st.sharers c false else st.sharers);
          max_cycle = max (add64 resp (k.children_rtts c)) st.max_cycle;
          sent_invs = st.sent_invs + 1;
          writeback = st.writeback || pulled;
          world = w;
        }))
      else some st

  -- for (c = i; c < i + n; c++)
  pub send_all : InvReq → ℕ → ℕ → Sending W → Option (Sending W)
  unfolding send_one
  send_all req zero c st = some st
  send_all req (suc n) c st = send_one req c st >>= send_all req n (suc c)

  settle : InvReq → Entry → Sending W → Option (Reply W)
  settle req d st =
      if is_inv req.type
      then some (record {
        cycle = st.max_cycle;
        entry = record d { sharers = st.sharers; num_sharers = 0 };
        writeback = st.writeback;
        world = st.world;
      })
      else (do
        require d.exclusive
        require (d.num_sharers == 1)
        some (record {
          cycle = st.max_cycle;
          entry = record d { sharers = st.sharers; exclusive = false };
          writeback = st.writeback;
          world = st.world;
        }))

  abbrev downgrades : InvType → Bool
  downgrades invx = true
  downgrades inv = false
  downgrades fwd = false

  -- the part of `sendInvalidates` below the first return
  send_down : InvReq → Entry → Bool → W → Option (Reply W)
  unfolding send_all settle is_empty
  send_down req d writeback w =
      if is_empty d
      then some (record { cycle = req.cycle; entry = d; writeback = writeback; world = w })
      else (do
        st ← send_all req k.num_children 0 (record {
          sharers = d.sharers;
          max_cycle = req.cycle;
          sent_invs = 0;
          writeback = writeback;
          world = w;
        })
        require (st.sent_invs == d.num_sharers)
        settle req d st)

  pub send_invalidates : InvReq → Entry → Bool → W → Option (Reply W)
  unfolding send_down is_exclusive
  send_invalidates req d writeback w =
      if downgrades req.type && not (is_exclusive d)
      then some (record { cycle = req.cycle; entry = d; writeback = writeback; world = w })
      else send_down req d writeback w

  pub process_eviction : ℕ → Entry → Bool → ℕ → ℕ → W → Option (Reply W)
  unfolding send_invalidates clear
  process_eviction line_addr d writeback cycle src_id w =
      if k.nonincl_hack
      then some (record { cycle = cycle; entry = clear; writeback = writeback; world = w })
      else send_invalidates
          (record { line_addr = line_addr; type = inv; cycle = cycle; src_id = src_id }) d writeback
          w

  pub process_inval : InvReq → Entry → Bool → W → Option (Reply W)
  unfolding send_invalidates
  process_inval req d writeback w = elim req.type [
    | inv ↦ send_invalidates req d writeback w
    | invx ↦ send_invalidates req d writeback w
    | fwd ↦ do
      require (not k.nonincl_hack)
      some (record { cycle = req.cycle; entry = d; writeback = writeback; world = w })
  ]

  sent : ℕ → Call → InvType → Entry → Bool → W → Option (Reply W)
  sent cycle a type d writeback w =
      send_invalidates
        (record { line_addr = a.line_addr; type = type; cycle = cycle; src_id = a.src_id }) d
        writeback w

  -- GETS, given in S
  give_shared : Call → Entry → Bool → W → Option (Grant W)
  give_shared a d writeback w = do
    require (not (d.sharers a.child_id))
    r ←
        (if is_exclusive d
          then sent a.cycle a invx d writeback w
          else some (record { cycle = a.cycle; entry = d; writeback = writeback; world = w }))
    let d' = r.entry
    require (not (is_exclusive d'))
    some (record {
      reply = record r {
        entry = record {
          sharers = write d'.sharers a.child_id true;
          num_sharers = add32 d'.num_sharers 1;
          exclusive = false;
        };
      };
      child_state = s;
    })

  -- a child that upgrades is taken out of the sharers first
  drop_upgrader : Call → Entry → Option Entry
  drop_upgrader a d =
      if d.sharers a.child_id
      then (do
        require (not (is_exclusive d))
        some (record d {
          sharers = write d.sharers a.child_id false;
          num_sharers = sub32 d.num_sharers 1;
        }))
      else some d

  give_exclusive : Call → Entry → Bool → W → Option (Grant W)
  give_exclusive a d writeback w = do
    require a.have_exclusive
    d' ← drop_upgrader a d
    r ← sent a.cycle a inv d' writeback w
    require (add32 (r.entry).num_sharers 1 == 1)
    some (record {
      reply = record r {
        entry = record {
          sharers = write (r.entry).sharers a.child_id true;
          num_sharers = add32 (r.entry).num_sharers 1;
          exclusive = true;
        };
      };
      child_state = m;
    })

  remove_sharer : Call → Entry → Bool → W → Option (Grant W)
  remove_sharer a d writeback w = do
    require (d.sharers a.child_id)
    some (record {
      reply = record {
        cycle = a.cycle;
        entry = record d {
          sharers = write d.sharers a.child_id false;
          num_sharers = sub32 d.num_sharers 1;
        };
        writeback = writeback;
        world = w;
      };
      child_state = i;
    })

  -- a PUTX that keeps exclusive permission
  keep_exclusive : Call → MesiState → Entry → Bool → W → Option (Grant W)
  keep_exclusive a child_state d writeback w = do
    require (d.sharers a.child_id)
    require (is_m child_state)
    some (record {
      reply = record { cycle = a.cycle; entry = d; writeback = writeback; world = w };
      child_state = e;
    })

  pub process_access : AccessType → Call → MesiState → Entry → Bool → W → Option (Grant W)
  process_access putx a child_state d writeback w = do
    require (is_exclusive d)
    (if has_flag a.flags putx_keepexcl
        then keep_exclusive a child_state d writeback w
        else remove_sharer a d writeback w)
  process_access puts a child_state d writeback w = remove_sharer a d writeback w
  process_access gets a child_state d writeback w =
      if is_empty d && a.have_exclusive && not (has_flag a.flags noexcl)
      then some (record {
        reply = record {
          cycle = a.cycle;
          entry = record {
            sharers = write d.sharers a.child_id true;
            num_sharers = 1;
            exclusive = true;
          };
          writeback = writeback;
          world = w;
        };
        child_state = e;
      })
      else give_shared a d writeback w
  process_access getx a child_state d writeback w = give_exclusive a d writeback w
