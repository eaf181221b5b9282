-- ===== src/Repl/Policy.antt =====
-- The interface of a replacement policy (zsim/src/repl_policies.h, class ReplPolicy), and the
-- order in which a cache array calls it (zsim/src/cache_arrays.cpp): `update` on a hit; on a miss
-- `rank`, then `replaced` and `update` on the line that `rank` chose.
use csce614_group_project.Base.{
  ℕ, ◌<◌, ◌≡◌, ◌≢◌, refl, true, Option, some, List, [], ◌∷◌, no_cand, All, elem, IsDistinct, ◌>>=◌,
}
use csce614_group_project.Hierarchy.{MemReq}

-- `update` and `rank` return `none` if a loop needs more rounds than the model's fuel.
pub record Policy : Type 1 where
  pub State : Type 0
  pub update : State → ℕ → MemReq → Option State
  pub replaced : State → ℕ → State
  pub rank : State → MemReq → List ℕ → Option (ℕ × State)

-- What the arrays pass as candidates: at least one, none twice, all of them line numbers.
pub record IsCands (cs : List ℕ) : Type 0 where
  pub nonempty : cs ≢ []
  pub distinct : IsDistinct cs
  pub ids : All (λ c. c < no_cand) cs

pub data Event : Type 0 where
  hit : ℕ → MemReq → Event
  miss : MemReq → List ℕ → Event

abbrev pub IsEvent : Event → Type 0
IsEvent (hit id req) = Unit
IsEvent (miss req cs) = IsCands cs

module _ (p : Policy) where
  -- `postinsert`: the chosen line is replaced, and then updated as on a hit
  unfoldable pub insert : p.State → ℕ → MemReq → Option p.State
  insert s id req = p.update (p.replaced s id) id req

  unfoldable pub finish : MemReq → ℕ × p.State → Option p.State
  unfolding insert
  finish req (id, s) = insert s id req

  unfoldable pub serve : p.State → Event → Option p.State
  unfolding finish
  serve s (hit id req) = p.update s id req
  serve s (miss req cs) = p.rank s req cs >>= finish req

  unfoldable pub run : p.State → List Event → Option p.State
  unfolding serve
  run s [] = some s
  run s (ev ∷ evs) = serve s ev >>= (λ t. run t evs)

-- What a policy owes its array: an invariant that the calls keep, and a `rank` that ends at one
-- of the candidates.
pub record Laws (p : Policy) : Type 1 where
  pub Inv : p.State → Type 0
  pub update_total :
      (s : p.State) (id : ℕ) (req : MemReq)
      → Inv s
      → (t : p.State) × (p.update s id req ≡ some t) × Inv t
  pub insert_total :
      (s : p.State) (id : ℕ) (req : MemReq)
      → Inv s
      → (t : p.State) × (insert p s id req ≡ some t) × Inv t
  pub rank_total :
      (s : p.State) (req : MemReq) (cs : List ℕ)
      → Inv s
      → IsCands cs
      → (id : ℕ) × (t : p.State) × (p.rank s req cs ≡ some (id, t)) × (elem id cs ≡ true) × Inv t

module _ (p : Policy) (laws : Laws p) where
  open laws use {Inv, update_total, insert_total, rank_total}

  serve_total :
      (s : p.State) (ev : Event)
      → IsEvent ev
      → Inv s
      → (t : p.State) × (serve p s ev ≡ some t) × Inv t
  unfolding serve
  serve_total s (hit id req) ok v = update_total s id req v
  serve_total s (miss req cs) ok v =
      let (id, t, e, mem, w) = rank_total s req cs v ok in
      let (u, f, x) = insert_total t id req w in (u, rw e f, x)

  -- No sequence of hits and misses gets stuck, and the invariant holds after it.
  pub run_total :
      (s : p.State) (evs : List Event)
      → All IsEvent evs
      → Inv s
      → (t : p.State) × (run p s evs ≡ some t) × Inv t
  unfolding run
  run_total s [] ok v = (s, refl, v)
  run_total s (ev ∷ evs) ok v =
      let (t, e, w) = serve_total s ev ok.0 v in
      let (u, f, x) = run_total t evs ok.1 w in (u, rw e f, x)
