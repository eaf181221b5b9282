-- ===== src/Repl/Lru/History.antt =====
-- zsim/src/repl_policies.h, LRUReplPolicy: its victim against the history of uses.
use csce614_group_project.Base.{
  ℕ, ◌+◌, ◌≤◌, ◌<◌, ◌≡◌, ◌≢◌, refl, true, false, List, [], ◌∷◌, u32_mod, u64_mod, add64, ◌==◌,
  if◌then◌else◌, elem, length, arith, Bool-cases, inl, inr,
}
use csce614_group_project.Hierarchy.{MemReq}
use csce614_group_project.Repl.Lru.{Lru, Lines, init, update, short_score, rank}
use csce614_group_project.Repl.Lru.Victim.{rank-IsLeast}

-- The uses of a history, the oldest first.
unfoldable pub use_all : Lru → MemReq → List ℕ → Lru
use_all p req [] = p
use_all p req (id ∷ ids) = use_all (update p id req) req ids

-- When a line was last used, if the first use of the history is at time `now`; 0 if never.
pub last_use : ℕ → List ℕ → ℕ → ℕ
last_use now [] id = 0
last_use now (x ∷ ids) id =
    let later = last_use (now + 1) ids id in
    if later == 0 then (if id == x then now else 0) else later

last_use-le : (now : ℕ) (ids : List ℕ) (id : ℕ) → last_use now ids id ≤ now + length ids
unfolding last_use
last_use-le now [] id = omega arith
last_use-le now (x ∷ ids) id = ground (arith, last_use-le (now + 1) ids id)

array-last_use :
    (p : Lru) (req : MemReq) (ids : List ℕ) (id : ℕ)
    → 0 < p.timestamp
    → p.timestamp + length ids < u64_mod
    → (use_all p req ids).array id
      ≡ (if last_use p.timestamp ids id == 0 then p.array id else last_use p.timestamp ids id)
unfolding use_all last_use update
array-last_use p req [] id pos fit = refl
array-last_use p req (x ∷ ids) id pos fit =
    let e : add64 p.timestamp 1 ≡ p.timestamp + 1 = omega arith in
    let ih = array-last_use (update p x req) req ids id (omega arith) (omega arith) in
    let ih' = rw e at ih in ground (arith, ih')

-- From the constructor, after any history of fewer than 2^32 - 1 uses, with every line valid and
-- sharers not counted: the victim is a candidate, and no candidate was last used before it.
pub rank_least_recent :
    (n : ℕ) (ctrl : Lines) (req next : MemReq) (ids cs : List ℕ) (c : ℕ)
    → elem c cs ≡ true
    → length ids + 1 < u32_mod
    → ((id : ℕ) → ctrl.is_valid id ≡ true)
    → let r = rank false ctrl (use_all (init n) req ids) next cs in
      (elem r cs ≡ true) × (last_use 1 ids r ≤ last_use 1 ids c)
unfolding init short_score
rank_least_recent n ctrl req next ids cs c mem fit valid =
    let l = rank-IsLeast false ctrl (use_all (init n) req ids) next cs (nonempty cs mem) in
    (
      l.among,
      omega (
        arith,
        l.smallest c mem,
        recency c,
        recency (rank false ctrl (use_all (init n) req ids) next cs),
      ),
    )
  where
    stamp : (id : ℕ) → (use_all (init n) req ids).array id ≡ last_use 1 ids id
    stamp id = elim (Bool-cases (last_use 1 ids id == 0)) [
      | inl e ↦ ground (arith, array-last_use (init n) req ids id)
      | inr e ↦ ground (arith, array-last_use (init n) req ids id)
    ]

    recency : (id : ℕ) → short_score false ctrl (use_all (init n) req ids) id ≡ last_use 1 ids id
    recency id = rw (valid id, stamp id) (omega (arith, last_use-le 1 ids id))

    nonempty : (ds : List ℕ) → elem c ds ≡ true → ds ≢ []
    nonempty ds m e = let f : elem c [] ≡ true = rw e at m in cc
