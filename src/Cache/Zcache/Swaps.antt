-- ===== src/Cache/Zcache/Swaps.antt =====
-- zsim/src/cache_arrays.cpp, ZArray::postinsert: the swaps of lines between positions.
use csce614_group_project.Base.{
  ℕ, zero, suc, ◌+◌, ◌<◌, ◌≤◌, ◌≡◌, ◌≢◌, ◌∙◌, refl, sym, ap, subst, inl, inr, true, false, some,
  List, [], ◌∷◌, Array, write, write_self, write_ne, ◌==◌, if◌then◌else◌, Bool-cases, arith,
}
use csce614_group_project.Hierarchy.{MemReq}
use csce614_group_project.Repl.Policy.{Policy, Laws}
use csce614_group_project.Cache.Zcache.{
  ZArray, swap_lines, starts_at, count_swaps, position, find_way, touch, lookup, postinsert,
}

-- Every line has one position.
pub record IsPlacement (lookup_array : Array ℕ) : Type 0 where
  pub once : (i j : ℕ) → lookup_array i ≡ lookup_array j → i ≡ j
  pub place : (id : ℕ) → (pos : ℕ) × (lookup_array pos ≡ id)

abbrev other : ℕ → ℕ → ℕ → ℕ
other pos next i = if i == next then pos else (if i == pos then next else i)

-- a swap, where the candidate stands at `pos` before and at `next` after
swapped-IsPlacement :
    (lines lines' : Array ℕ) (pos next : ℕ)
    → IsPlacement lines
    → ((i : ℕ) → lines' i ≡ lines (other pos next i))
    → IsPlacement lines'
swapped-IsPlacement lines lines' pos next h e = record {
  once = λ i j p.
      let q = h.once (other pos next i) (other pos next j) (sym (e i) ∙ p ∙ e j) in ground arith;
  place = λ id.
      let (i, at) = h.place id in
      (other pos next i, e (other pos next i) ∙ ap lines (twice i) ∙ at);
}
  where
    twice : (i : ℕ) → other pos next (other pos next i) ≡ i
    twice i = ground arith

-- the position that the incoming address gets
abbrev pub last_of : ℕ → List ℕ → ℕ
last_of pos [] = pos
last_of pos (next ∷ rest) = last_of next rest

swap_lines-IsPlacement :
    (lines : Array ℕ) (pos : ℕ) (rest : List ℕ) (candidate : ℕ)
    → IsPlacement (write lines pos candidate)
    → (lines' : Array ℕ) × (swap_lines lines (pos ∷ rest) candidate ≡ some lines')
      × IsPlacement lines'
      × (lines' (last_of pos rest) ≡ candidate)
unfolding swap_lines
swap_lines-IsPlacement lines pos [] candidate h = (_, refl, h, write_self lines pos candidate)
swap_lines-IsPlacement lines pos (next ∷ rest) candidate h =
    swap_lines-IsPlacement (write lines pos (lines next)) next rest candidate
      (swapped-IsPlacement (write lines pos candidate) _ pos next h (λ i. ground arith))

module _ (hash : ℕ → ℕ → ℕ) (p : Policy) where
  -- the search through the ways ends at a line that holds the address, if one of them leads to such a line
  find_way_found :
      (g : ZArray p.State) (n line_addr first w : ℕ)
      → first ≤ w
      → w < first + n
      → g.array (g.lookup_array (position hash p g w line_addr)) ≡ line_addr
      → (id : ℕ) × (find_way hash p g n line_addr first ≡ some id) × (g.array id ≡ line_addr)
  unfolding find_way
  find_way_found g zero line_addr first w l l' at = absurd (omega arith)
  find_way_found g (suc n) line_addr first w l l' at =
      let here = g.array (g.lookup_array (position hash p g first line_addr)) == line_addr in
      elim (Bool-cases here) [
        | inl q ↦ rw q (_, refl, ground arith)
        | inr q ↦
            let differ : first ≢ w = λ e. absurd (ground (arith, q, e, at)) in
            let (id, run, holds) =
              find_way_found g n line_addr (suc first) w (omega (arith, differ)) (omega arith) at in
            rw q (id, run, holds)
      ]

  -- The promise of an insertion: every line still has one position, no other address changes, and the
  -- new address is looked up at a line that holds it.
  pub record Inserts (g g' : ZArray p.State) (line_addr candidate : ℕ) (req : MemReq) : Type 0 where
    pub placement : IsPlacement g'.lookup_array
    pub others : (id : ℕ) → id ≢ candidate → g'.array id ≡ g.array id
    pub id : ℕ
    pub found : lookup hash p g' line_addr req false ≡ some (some id, g')
    pub holds : g'.array id ≡ line_addr

  -- Where every line has one position, the swaps start at the candidate's and end at a position of the
  -- incoming address, which is not 0: the insertion succeeds, every line has one position after it, no
  -- other line's address changes, and a lookup finds the incoming address at a line that holds it.
  pub postinsert-Inserts :
      (laws : Laws p) (g : ZArray p.State) (line_addr candidate : ℕ) (req : MemReq) (pos : ℕ)
      (rest : List ℕ) (w : ℕ)
      → laws.Inv g.rp
      → IsPlacement g.lookup_array
      → g.swap_array ≡ pos ∷ rest
      → g.lookup_array pos ≡ candidate
      → w < g.ways
      → last_of pos rest ≡ position hash p g w line_addr
      → line_addr ≢ 0
      → (g' : ZArray p.State) × (postinsert hash p g line_addr req candidate ≡ some g')
        × Inserts g g' line_addr candidate req
  unfolding postinsert lookup touch position
  postinsert-Inserts laws g line_addr candidate req pos rest w inv h path start low home real =
      let same =
        swapped-IsPlacement g.lookup_array (write g.lookup_array pos candidate) pos pos h
          (λ i. ground (arith, start)) in
      let (lines, run, h', at) = swap_lines-IsPlacement g.lookup_array pos rest candidate same in
      let (rp, e, inv') = laws.insert_total g.rp candidate req inv in
      let starts : (g.lookup_array pos == candidate) ≡ true = ground (arith, start) in
      let after : ZArray p.State = record g {
        lookup_array = lines;
        array = write g.array candidate line_addr;
        rp = rp;
        swaps = g.swaps + count_swaps g.swap_array;
      } in
      let there : lines (position hash p after w line_addr) ≡ candidate =
        subst (λ i. lines i ≡ candidate) home at in
      let written : after.array (lines (position hash p after w line_addr)) ≡ line_addr =
        ap after.array there ∙ write_self g.array candidate line_addr in
      let (id, seen, holds) =
        find_way_found after g.ways line_addr 0 w (omega arith) (omega arith) written in
      let no_zero : (line_addr == 0) ≡ false = ground (arith, real) in
      let run' : swap_lines g.lookup_array g.swap_array candidate ≡ some lines =
        subst (λ l. swap_lines g.lookup_array l candidate ≡ some lines) (sym path) run in
      let starts' : starts_at g.lookup_array g.swap_array candidate ≡ true =
        subst (λ l. starts_at g.lookup_array l candidate ≡ true) (sym path) starts in
      (
        after,
        (rw (starts', run', e) refl),
        record {
          placement = h';
          others = λ id ne. write_ne g.array candidate id line_addr ne;
          id = id;
          found = rw (no_zero, seen) refl;
          holds = holds;
        },
      )
