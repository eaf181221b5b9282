-- ===== src/Coherence/Race/Safe.antt =====
-- zsim/src/coherence_ctrls.h, CheckForMESIRace: what becomes of a request that invalidations of its
-- line come before.
use mathlib.Core.Option.{some-injective, none-ne-some}
use csce614_group_project.Base.{
  sym, Option-cases, ==_refl, ◌≡◌, refl, Bool, true, false, Option, none, some, List, [], ◌∷◌,
  ◌>>=◌, ◌⊎◌, inl, inr, arith, ◌∙◌, ap,
}
use csce614_group_project.Hierarchy.{
  AccessType, is_put, gets, getx, puts, putx, MesiState, InvType, inv, invx, fwd, is_i, is_owner,
  code,
}
use csce614_group_project.Coherence.Bottom.{inval_line}
use csce614_group_project.Coherence.Top.Coherent.{Legal}
use csce614_group_project.Coherence.Race.{check_for_mesi_race}

-- The invalidations that the line's own controller processes in between, the oldest first.
unfoldable pub interleave : List InvType → MesiState → Option MesiState
interleave [] st = some st
interleave (t ∷ ts) st = inval_line t st >>= λ r. interleave ts r.1

-- A held line falls to I, and an owned one also to S.
abbrev Falls : MesiState → MesiState → Type 0
Falls initial now =
    (now ≡ initial)
    ⊎ ((is_i initial ≡ false)
        × ((now ≡ MesiState.i) ⊎ ((is_owner initial ≡ true) × (now ≡ MesiState.s))))

Falls-on : (st mid now : MesiState) → Falls st mid → Falls mid now → Falls st now
Falls-on st mid now (inl same) g = rw⁻¹ same g
Falls-on st mid now (inr (held, inl gone)) (inl same) = inr (held, inl (same ∙ gone))
Falls-on st mid now (inr (held, inl gone)) (inr (still, _)) =
    let no : is_i mid ≡ true = rw gone in cc
Falls-on st mid now (inr (held, inr (own, down))) (inl same) = inr (held, inr (own, same ∙ down))
Falls-on st mid now (inr (held, inr (own, down))) (inr (still, inl gone)) = inr (held, inl gone)
Falls-on st mid now (inr (held, inr (own, down))) (inr (still, inr (_, down2))) =
    inr (held, inr (own, down2))

left : {r r' : Bool × MesiState} → some r ≡ some r' → r.1 ≡ r'.1
left {r} {r'} h = ap (λ (p : Bool × MesiState). p.1) (some-injective r r' h)

inval-Falls :
    (t : InvType) (st : MesiState) (b : Bool) (mid : MesiState)
    → inval_line t st ≡ some (b, mid)
    → Falls st mid
unfolding inval_line
inval-Falls inv MesiState.i b mid h = absurd (none-ne-some _ h)
inval-Falls inv MesiState.s b mid h = inr (refl, inl (sym (left {r' = (b, mid)} h)))
inval-Falls inv MesiState.e b mid h = inr (refl, inl (sym (left {r' = (b, mid)} h)))
inval-Falls inv MesiState.m b mid h = inr (refl, inl (sym (left {r' = (b, mid)} h)))
inval-Falls invx MesiState.i b mid h = absurd (none-ne-some _ h)
inval-Falls invx MesiState.s b mid h = absurd (none-ne-some _ h)
inval-Falls invx MesiState.e b mid h = inr (refl, inr (refl, sym (left {r' = (b, mid)} h)))
inval-Falls invx MesiState.m b mid h = inr (refl, inr (refl, sym (left {r' = (b, mid)} h)))
inval-Falls fwd MesiState.i b mid h = absurd (none-ne-some _ h)
inval-Falls fwd MesiState.s b mid h = inl (sym (left {r' = (b, mid)} h))
inval-Falls fwd MesiState.e b mid h = absurd (none-ne-some _ h)
inval-Falls fwd MesiState.m b mid h = absurd (none-ne-some _ h)

interleave-Falls :
    (ts : List InvType) (st now : MesiState) → interleave ts st ≡ some now → Falls st now
unfolding interleave
interleave-Falls [] st now h = inl (sym (some-injective _ _ h))
interleave-Falls (t ∷ ts) st now h = elim (Option-cases (inval_line t st)) [
  | inl e ↦ let f : none ≡ some now = rw e at h in absurd (none-ne-some now f)
  | inr (r, e) ↦
      let f = rw e at h in
      Falls-on st r.1 now (inval-Falls t st r.0 r.1 e) (interleave-Falls ts r.1 now f)
]

-- What may become of the request `asked`: only a put of a line that is gone is skipped. The others go on,
-- suit the line's state, and are what was asked for, but for the PUTX of a line that was downgraded,
-- which is then a PUTS.
abbrev pub Settles : AccessType → Bool × AccessType → MesiState → Type 0
Settles asked (true, type) now = (is_put asked ≡ true) × (is_i now ≡ true)
Settles asked (false, type) now =
    Legal type now × ((type ≡ asked) ⊎ ((asked ≡ putx) × (type ≡ puts) × (now ≡ MesiState.s)))

settled_gone :
    (type : AccessType) (initial : MesiState)
    → Legal type initial
    → is_i initial ≡ false
    → (r : Bool × AccessType) × (check_for_mesi_race type MesiState.i initial ≡ some r)
      × Settles type r MesiState.i
unfolding check_for_mesi_race is_put
settled_gone gets MesiState.i legal held = cc
settled_gone gets MesiState.s legal held = cc
settled_gone gets MesiState.e legal held = cc
settled_gone gets MesiState.m legal held = cc
settled_gone getx MesiState.i legal held = cc
settled_gone getx MesiState.s legal held = ((false, getx), refl, (refl, inl refl))
settled_gone getx MesiState.e legal held = cc
settled_gone getx MesiState.m legal held = cc
settled_gone puts MesiState.i legal held = cc
settled_gone puts MesiState.s legal held = ((true, puts), refl, (refl, refl))
settled_gone puts MesiState.e legal held = ((true, puts), refl, (refl, refl))
settled_gone puts MesiState.m legal held = absurd (ground arith)
settled_gone putx MesiState.i legal held = cc
settled_gone putx MesiState.s legal held = cc
settled_gone putx MesiState.e legal held = cc
settled_gone putx MesiState.m legal held = ((true, putx), refl, (refl, refl))

settled_down :
    (type : AccessType) (initial : MesiState)
    → Legal type initial
    → is_owner initial ≡ true
    → (r : Bool × AccessType) × (check_for_mesi_race type MesiState.s initial ≡ some r)
      × Settles type r MesiState.s
unfolding check_for_mesi_race
settled_down gets MesiState.i legal own = cc
settled_down gets MesiState.s legal own = cc
settled_down gets MesiState.e legal own = cc
settled_down gets MesiState.m legal own = cc
settled_down getx MesiState.i legal own = cc
settled_down getx MesiState.s legal own = cc
settled_down getx MesiState.e legal own = cc
settled_down getx MesiState.m legal own = cc
settled_down puts MesiState.i legal own = cc
settled_down puts MesiState.s legal own = cc
settled_down puts MesiState.e legal own = ((false, puts), refl, ((refl, refl), inl refl))
settled_down puts MesiState.m legal own = absurd (ground arith)
settled_down putx MesiState.i legal own = cc
settled_down putx MesiState.s legal own = cc
settled_down putx MesiState.e legal own = cc
settled_down putx MesiState.m legal own =
    ((false, puts), refl, ((refl, refl), inr (refl, refl, refl)))

settled :
    (type : AccessType) (initial now : MesiState)
    → Legal type initial
    → Falls initial now
    → (r : Bool × AccessType) × (check_for_mesi_race type now initial ≡ some r) × Settles type r now
unfolding check_for_mesi_race
settled type initial now legal (inl same) =
    ((false, type), rw (same, ==_refl (code initial)), (rw same legal, inl refl))
settled type initial now legal (inr (held, inl gone)) =
    rw gone (settled_gone type initial legal held)
settled type initial now legal (inr (held, inr (own, down))) =
    rw down (settled_down type initial legal own)

-- A request that suited the line's state when it was made, and any invalidations that reach the line
-- before it is served: the race check does not panic. It skips the access only where it is a put and
-- the line is invalid by then; else the request goes on, suits the state that the line is in, and is
-- the one that was made, except that a PUTX of a line that is in S by then becomes a PUTS.
pub check_for_mesi_race-Settles :
    (type : AccessType) (initial now : MesiState) (between : List InvType)
    → Legal type initial
    → interleave between initial ≡ some now
    → (r : Bool × AccessType) × (check_for_mesi_race type now initial ≡ some r) × Settles type r now
check_for_mesi_race-Settles type initial now between legal run =
    settled type initial now legal (interleave-Falls between initial now run)
