-- ===== src/Coherence/Composite/Inval.antt =====
-- zsim/src/coherence_ctrls.h, MESICC::processInv: an invalidation from above, for the children's copies and
-- the line's own state.
use csce614_group_project.Base.{
  ℕ, ◌≡◌, ◌≢◌, ◌∙◌, refl, sym, ap, subst, Bool, true, false, some, Array, write_ne, write_self,
  arith,
}
use csce614_group_project.Hierarchy.{
  MesiState, InvType, inv, invx, fwd, InvReq, is_i, is_owner, is_s,
}
use csce614_group_project.Coherence.Bottom.{Access, inval_line}
use csce614_group_project.Coherence.Bottom.Line.{process_inval-line}
use csce614_group_project.Coherence.Top.{Entry, Children}
use csce614_group_project.Coherence.Top.Directory.{invalidate_child, IsCoherent}
use csce614_group_project.Coherence.Top.Invals.{Lowered, process_inval-Lowers}
use csce614_group_project.Coherence.Composite.{Composite, Reply, process_inv}

-- The cache holds what a child holds, and owns what a child owns.
abbrev pub Covers : MesiState → (ℕ → MesiState) → Type 0
Covers st states =
    (c : ℕ)
    → (is_owner (states c) ≡ true → is_owner st ≡ true) × (is_i st ≡ true → is_i (states c) ≡ true)

-- the state in which a parent sends an invalidation
abbrev pub Suits : InvType → MesiState → Type 0
Suits inv st = is_i st ≡ false
Suits invx st = is_owner st ≡ true
Suits fwd st = is_s st ≡ true

module _ (k : Children) (lat : ℕ) (c : Composite) (id : ℕ) (states : ℕ → MesiState)
    (v : IsCoherent k.num_children (c.directory id) states) where
  abbrev After : InvType → (ℕ → MesiState) → Type 0
  After type after = Lowered k lat (c.directory id) states false v type after

  lowered_line :
      (type : InvType) (st : MesiState) (after : ℕ → MesiState)
      → Suits type st
      → Covers st states
      → After type after
      → (dirty : Bool) × (st' : MesiState) × (inval_line type st ≡ some (dirty, st'))
        × Covers st' after
  unfolding inval_line
  lowered_line inv MesiState.i after suits cov low = cc
  lowered_line inv MesiState.s after suits cov low = (_, _, refl, λ d. ground (arith, low d))
  lowered_line inv MesiState.e after suits cov low = (_, _, refl, λ d. ground (arith, low d))
  lowered_line inv MesiState.m after suits cov low = (_, _, refl, λ d. ground (arith, low d))
  lowered_line invx MesiState.i after suits cov low = cc
  lowered_line invx MesiState.s after suits cov low = cc
  lowered_line invx MesiState.e after suits cov low = (_, _, refl, λ d. ground (arith, low d))
  lowered_line invx MesiState.m after suits cov low = (_, _, refl, λ d. ground (arith, low d))
  lowered_line fwd MesiState.i after suits cov low = cc
  lowered_line fwd MesiState.s after suits cov low = (_, _, refl, λ d. ground (arith, low d, cov d))
  lowered_line fwd MesiState.e after suits cov low = cc
  lowered_line fwd MesiState.m after suits cov low = cc

  -- Where the cache's directory is true of its children, it is inclusive, its own state covers
  -- theirs, and the parent sends an invalidation that suits that state: no assertion fails, the
  -- directory is true of the children's new states, the new state of the line covers them, and no
  -- other line of the cache or entry of the directory changes.
  pub process_inv-Covers :
      (access : Access (Array Entry × (ℕ → MesiState))) (req : InvReq)
      → k.nonincl_hack ≡ false
      → Covers (c.bcc.array id) states
      → Suits req.type (c.bcc.array id)
      → (writeback : Bool) × (r : Reply (ℕ → MesiState)) × (process_inv access k
            (invalidate_child lat)
            c
            req
            id
            states
          ≡ some (writeback, r))
        × IsCoherent k.num_children (r.cc.directory id) r.world
        × Covers (r.cc.bcc.array id) r.world
        × ((j : ℕ)
            → j ≢ id
            → (r.cc.bcc.array j ≡ c.bcc.array j) × (r.cc.directory j ≡ c.directory j))
  unfolding process_inv
  process_inv-Covers access req incl cov suits =
      let (t, run, coh, low) =
        process_inval-Lowers k lat (c.directory id) states false v incl req in
      let (dirty, st, e, cov') = lowered_line req.type (c.bcc.array id) t.world suits cov low in
      let (b, e', at) = process_inval-line c.bcc id req.type dirty st e in
      rw (run, e')
        (
          _,
          _,
          refl,
          subst (λ d. IsCoherent k.num_children d t.world) (sym (write_self c.directory id t.entry))
              coh,
          subst (λ d. Covers d t.world) (sym (ap (λ f. f id) at ∙ write_self c.bcc.array id st))
              cov',
          λ j ne. (
            ap (λ f. f j) at ∙ write_ne c.bcc.array id j st ne,
            write_ne c.directory id j t.entry ne,
          ),
        )
