-- ===== src/Repl/Optgen/Ring.antt =====
-- The circular index of a history: a step back, a step forward, and when they are those of a ring.
use native.Mathlib.Nat.{mod-lt, mod-eq_of_lt, suc-mod, mod_self, mod-mod_of_dvd, dvd_of_mod-eq-zero}
use native.Mathlib.Decide.{dec_lt}
use csce614_group_project.Base.{
  ℕ, zero, suc, ◌+◌, ◌-◌, ◌%◌, ◌≤◌, ◌<◌, ◌≡◌, ◌≢◌, arith, add32, sub32, u32_mod, ◌==◌, leb,
  if◌then◌else◌, ◌↔◌, ◌∙◌,
}
use csce614_group_project.Repl.Optgen.{wrap_index}

-- The sizes at which the wrap-around of `uint32_t` is that of the ring.
pub record IsRing (size : ℕ) : Type 0 where
  pub positive : 0 < size
  pub small : size ≤ 2147483648
  pub divides : u32_mod % size ≡ 0

abbrev pub back : ℕ → ℕ → ℕ
back size i = if i == 0 then size - 1 else i - 1

abbrev pub forward : ℕ → ℕ → ℕ
forward size i = if i + 1 == size then 0 else i + 1

pub wrap_index-lt : (size idx : ℕ) → 0 < size → size ≤ 2147483648 → wrap_index size idx < size
unfolding wrap_index
wrap_index-lt size idx p h = ground (arith, mod-lt (idx % u32_mod) {m = size} p)

wrap_index_small : (size idx : ℕ) → idx < size → size ≤ 2147483648 → wrap_index size idx ≡ idx
unfolding wrap_index
wrap_index_small size idx p h = ground (arith, mod-eq_of_lt {n = idx} {m = size} p)

-- The last 32-bit pattern is the last index exactly when the size divides 2^32.
last_mod : (size : ℕ) → 0 < size → (4294967295 % size ≡ size - 1) ↔ (u32_mod % size ≡ 0)
last_mod size p = (there, here)
  where
    next : u32_mod % size ≡ suc (4294967295 % size) % size
    next = suc-mod 4294967295 size

    there : 4294967295 % size ≡ size - 1 → u32_mod % size ≡ 0
    there e = let f : suc (4294967295 % size) ≡ size = omega arith in next ∙ (rw f (mod_self size))

    here : u32_mod % size ≡ 0 → 4294967295 % size ≡ size - 1
    here e = elim (dec_lt (suc (4294967295 % size)) size) [
      | yes h ↦
          absurd (omega (arith, next, mod-eq_of_lt {n = suc (4294967295 % size)} {m = size} h))
      | no h ↦ omega (arith, mod-lt 4294967295 {m = size} p)
    ]

wrap_index_last :
    (size : ℕ) → 0 < size → size ≤ 2147483648 → wrap_index size 4294967295 ≡ 4294967295 % size
unfolding wrap_index
wrap_index_last size p h = ground (arith, mod-lt 4294967295 {m = size} p)

wrap_index_self : (size : ℕ) → 0 < size → size ≤ 2147483648 → wrap_index size size ≡ 0
unfolding wrap_index
wrap_index_self size p h = ground (arith, mod_self size)

-- One step back and one step forward are those of a ring of `size` slots.
pub wrap_index-back :
    (size i : ℕ) → IsRing size → i < size → wrap_index size (sub32 i 1) ≡ back size i
wrap_index-back size zero r h =
    wrap_index_last size r.positive r.small ∙ (last_mod size r.positive).1 r.divides
wrap_index-back size (suc i) r h =
    let e : sub32 (suc i) 1 ≡ i = omega (arith, r.small) in
    rw e (ground (arith, wrap_index_small size i (omega arith) r.small))

pub wrap_index-forward :
    (size i : ℕ) → IsRing size → i < size → wrap_index size (add32 i 1) ≡ forward size i
wrap_index-forward size i r h =
    let e : add32 i 1 ≡ i + 1 = omega (arith, r.small) in
    elim (dec_lt (i + 1) size) [
      | yes p ↦ rw e (ground (arith, wrap_index_small size (i + 1) p r.small))
      | no p ↦
          let f : i + 1 ≡ size = omega arith in
          rw (e, f) (ground (arith, wrap_index_self size r.positive r.small))
    ]

wrap_index-mod : (size x : ℕ) → IsRing size → wrap_index size x ≡ x % size
unfolding wrap_index
wrap_index-mod size x r =
    let e : x % u32_mod % size ≡ x % size =
      mod-mod_of_dvd size x (dvd_of_mod-eq-zero size {n = u32_mod} r.divides) in
    ground (arith, e, mod-lt x {m = size} r.positive, r.small)

add32_mod : (size x : ℕ) → IsRing size → add32 x 1 % size ≡ suc (x % size) % size
add32_mod size x r =
    let e : suc x ≡ x + 1 = omega arith in
    mod-mod_of_dvd size (x + 1) (dvd_of_mod-eq-zero size {n = u32_mod} r.divides)
    ∙ (rw (← e) (suc-mod x size))

-- The next count opens the next slot of the ring, also where the count wraps.
pub wrap_index-suc :
    (size x : ℕ) → IsRing size → wrap_index size (add32 x 1) ≡ forward size (wrap_index size x)
wrap_index-suc size x r =
    let p = mod-lt x {m = size} r.positive in
    rw (wrap_index-mod size (add32 x 1) r, wrap_index-mod size x r, add32_mod size x r)
      (elim (dec_lt (suc (x % size)) size) [
        | yes h ↦ ground (arith, mod-eq_of_lt {n = suc (x % size)} {m = size} h)
        | no h ↦ let e : suc (x % size) ≡ size = omega arith in rw (e, mod_self size) (ground arith)
      ])

-- For a size from 1 to 2^31, the step back from slot 0 reaches the last slot exactly when the size
-- divides 2^32.
pub wrap_index_zero :
    (size : ℕ)
    → 0 < size
    → size ≤ 2147483648
    → (wrap_index size (sub32 0 1) ≡ size - 1) ↔ (u32_mod % size ≡ 0)
wrap_index_zero size p h = rw (wrap_index_last size p h) (last_mod size p)

-- How many steps forward lead from `i` to `k`.
abbrev pub ahead : ℕ → ℕ → ℕ → ℕ
ahead size i k = if leb i k then k - i else k + size - i

module _ (size h : ℕ) (inside : h < size) where
  pub ahead-back : (i : ℕ) → i < size → i ≢ h → suc (ahead size h (back size i)) ≡ ahead size h i
  ahead-back i p ne = ground arith

  pub forward-ahead :
      (i : ℕ) → i < size → i ≢ h → suc (ahead size (forward size i) h) ≡ ahead size i h
  forward-ahead i p ne = ground arith

  pub ahead_inj : (i k : ℕ) → i < size → k < size → ahead size h i ≡ ahead size h k → i ≡ k
  ahead_inj i k p q e = ground arith

  pub to_inj : (i k : ℕ) → i < size → k < size → ahead size i h ≡ ahead size k h → i ≡ k
  to_inj i k p q e = ground arith
