-- ===== src/Barrier/Listed.antt =====
-- zsim/src/barrier.h: the run list against the states of the threads, under the writes of the operations.
use csce614_group_project.Base.{
  ℕ, suc, ◌-◌, ◌<◌, ◌≡◌, sym, ap, ◌∙◌, inl, inr, Bool-cases, true, false, ◌||◌, Array, write, ◌==◌,
  if◌then◌else◌, arith,
}
use csce614_group_project.Barrier.{State, offline, waiting, is_offline, is_running, is_left}

-- Every position holds a thread that is not offline, each such thread has one position, and
-- `last_idx` tells the position of a thread that has run since it came on the list.
pub record IsListed (run_list : Array ℕ) (size : ℕ) (state : Array State) (last_idx : Array ℕ)
    : Type 0 where
  pub member : (i : ℕ) → i < size → is_offline (state (run_list i)) ≡ false
  pub once : (i j : ℕ) → i < size → j < size → run_list i ≡ run_list j → i ≡ j
  pub place : (t : ℕ) → is_offline (state t) ≡ false → (i : ℕ) × (i < size) × (run_list i ≡ t)
  pub known :
      (t : ℕ)
      → (is_running (state t) || is_left (state t)) ≡ true
      → (last_idx t < size) × (run_list (last_idx t) ≡ t)

-- where the exchange of `i` and `j` takes a position from
abbrev source : ℕ → ℕ → ℕ → ℕ
source i j k = if k == j then i else (if k == i then j else k)

module _ {run_list : Array ℕ} {size : ℕ} {state : Array State} {last_idx : Array ℕ}
    (h : IsListed run_list size state last_idx) where
  open h use {member, once, place, known}

  exchange :
      (i j k : ℕ) → write (write run_list i (run_list j)) j (run_list i) k ≡ run_list (source i j k)
  exchange i j k = ground arith

  source-source : (i j k : ℕ) → source i j (source i j k) ≡ k
  source-source i j k = ground arith

  source_below : (i j k : ℕ) → i < size → j < size → k < size → source i j k < size
  source_below i j k hi hj hk = ground arith

  once_swapped :
      (i j k l : ℕ)
      → i < size
      → j < size
      → k < size
      → l < size
      → run_list (source i j k) ≡ run_list (source i j l)
      → k ≡ l
  once_swapped i j k l hi hj hk hl e =
      let p =
        once (source i j k) (source i j l) (source_below i j k hi hj hk)
          (source_below i j l hi hj hl) e in
      sym (source-source i j k) ∙ ap (source i j) p ∙ source-source i j l

  pub swap-IsListed :
      (i j : ℕ)
      → i < size
      → j < size
      → IsListed
          (write (write run_list i (run_list j)) j (run_list i))
          size
          state
          (write (write last_idx (run_list i) j) (run_list j) i)
  swap-IsListed i j hi hj = record {
    member = λ k hk. ground (arith, member i hi, member j hj, member k hk);
    once =
        λ k l hk hl e. once_swapped i j k l hi hj hk hl (sym (exchange i j k) ∙ e ∙ exchange i j l);
    place = λ t ht.
        let (k, hk, e) = place t ht in
        (
          source i j k,
          source_below i j k hi hj hk,
          exchange i j (source i j k) ∙ ap run_list (source-source i j k) ∙ e,
        );
    known = λ t ht. ground (arith, known t ht, once i j, exchange i j (last_idx t));
  }

  -- a thread of the list changes its state, and `last_idx` with it
  pub set-IsListed :
      (t : ℕ) (s : State) (idx : ℕ)
      → is_offline (state t) ≡ false
      → is_offline s ≡ false
      → ((is_running s || is_left s) ≡ true → (idx < size) × (run_list idx ≡ t))
      → IsListed run_list size (write state t s) (write last_idx t idx)
  set-IsListed t s idx on on' ran = record {
    member = λ k hk. ground (arith, member k hk);
    once = once;
    place = λ u hu. place u (ground arith);
    known = λ u hu. ground (arith, known u, ran);
  }

  pub append-IsListed :
      (t : ℕ)
      → is_offline (state t) ≡ true
      → IsListed (write run_list size t) (suc size) (write state t waiting) last_idx
  append-IsListed t off = record {
    member = λ k hk. ground (arith, member k);
    once = λ k l hk hl e. ground (arith, once k l, member k, member l);
    place = λ u hu. placed u hu;
    known = λ u hu. ground (arith, known u);
  }
    where
      placed :
          (u : ℕ)
          → is_offline (write state t waiting u) ≡ false
          → (i : ℕ) × (i < suc size) × (write run_list size t i ≡ u)
      placed u hu = elim (Bool-cases (u == t)) [
        | inl p ↦ (size, omega arith, ground arith)
        | inr p ↦ let (i, hi, e) = place u (ground arith) in (i, omega arith, ground arith)
      ]

  pub remove-IsListed :
      (idx : ℕ)
      → idx < size
      → IsListed
          (write run_list idx (run_list (size - 1)))
          (size - 1)
          (write state (run_list idx) offline)
          (write last_idx (run_list (size - 1)) idx)
  remove-IsListed idx hi = record {
    member = λ k hk. ground (arith, member k, member (size - 1), once k idx, once (size - 1) idx);
    once = λ k l hk hl e. ground (arith, once k l, once (size - 1) l, once k (size - 1));
    place = λ u hu. placed u hu;
    known = λ u hu. ground (arith, known u, member (size - 1));
  }
    where
      placed :
          (u : ℕ)
          → is_offline (write state (run_list idx) offline u) ≡ false
          → (i : ℕ) × (i < size - 1) × (write run_list idx (run_list (size - 1)) i ≡ u)
      placed u hu =
          let (i, hi', e) = place u (ground arith) in
          elim (Bool-cases (i == size - 1)) [
            | inl p ↦ (idx, ground arith, ground arith)
            | inr p ↦ (i, ground arith, ground arith)
          ]

  -- a thread of the list changes its state alone
  pub move-IsListed :
      (t : ℕ) (s : State)
      → is_offline (state t) ≡ false
      → is_offline s ≡ false
      → ((is_running s || is_left s) ≡ true → (last_idx t < size) × (run_list (last_idx t) ≡ t))
      → IsListed run_list size (write state t s) last_idx
  move-IsListed t s on on' ran = record {
    member = λ k hk. ground (arith, member k hk);
    once = once;
    place = λ u hu. place u (ground arith);
    known = λ u hu. ground (arith, known u, ran);
  }
