-- ===== src/Cache/Filter/Stale.antt =====
-- zsim/src/filter_cache.h: when an invalidation reaches the filter's entry of a line, and when it does not.
use csce614_group_project.Base.{
  ℕ, ◌+◌, ◌/◌, ◌%◌, ◌^◌, ◌≤◌, ◌<◌, ◌≡◌, ◌≢◌, refl, max, Bool, true, false, some, Array, write, ◌==◌,
  arith, Bool-cases, ==_refl, inl, inr, ◌⊎◌,
}
use Prim.Native.Nat.{bit_or}
use csce614_group_project.Hierarchy.{InvReq}
use csce614_group_project.Cache.Filter.{
  Entry, Filter, Process, Access, Finish, no_addr, init, request, refill, replace, load, drop_line,
  invalidate,
}

-- An entry that may be written may be read.
abbrev pub Paired : Filter → Type 0
Paired p =
    (idx : ℕ)
    → ((p.filter_array idx).wr_addr ≡ no_addr)
      ⊎ ((p.filter_array idx).wr_addr ≡ (p.filter_array idx).rd_addr)

pub init-Paired : (num_sets : ℕ) → Paired (init num_sets)
unfolding init
init-Paired num_sets idx = inr refl

module _ {W : Type 0} (proc : Process) (access : Access W) (finish : Finish W) where
  -- Neither a load nor a store of the line is answered by the filter.
  pub record Forgets (p : Filter) (v_line : ℕ) : Type 0 where
    pub unreadable : (p.filter_array (v_line % p.num_sets)).rd_addr ≢ v_line
    pub unwritable : (p.filter_array (v_line % p.num_sets)).wr_addr ≢ v_line

  drop_line-Forgets :
      (p : Filter) (v_line : ℕ)
      → Paired p
      → v_line < no_addr
      → bit_or v_line proc.proc_mask % p.num_sets ≡ v_line % p.num_sets
      → Forgets (drop_line proc access finish p (bit_or v_line proc.proc_mask)) v_line
  unfolding drop_line
  drop_line-Forgets p v_line pair fits same =
      let differ : (a : ℕ)
          → (bit_or a proc.proc_mask == bit_or v_line proc.proc_mask) ≡ false
          → a ≢ v_line =
        λ a h e.
          let f : (bit_or v_line proc.proc_mask == bit_or v_line proc.proc_mask) ≡ false =
            rw e at h in
          absurd (ground arith) in
      rw same
        (elim (Bool-cases (
          bit_or (p.filter_array (v_line % p.num_sets)).rd_addr proc.proc_mask
          == bit_or v_line proc.proc_mask)) [
            | inl e ↦ rw e (record { unreadable = ground arith; unwritable = ground arith })
            | inr e ↦ rw e (record {
              unreadable = differ _ e;
              unwritable = ground (arith, pair (v_line % p.num_sets), differ _ e);
            })
          ])

  -- An invalidation of a line of the process `filler`, which a process of the same mask makes: after
  -- it, and from paired entries, the filter answers neither loads nor stores of the line, whatever it
  -- held, for a line number below 2^64 - 1 whose set the mask does not change.
  pub invalidate-Forgets :
      (filler : Process) (p : Filter) (v_line : ℕ) (req : InvReq) (w w' : W) (resp : ℕ)
      → filler.proc_mask ≡ proc.proc_mask
      → Paired p
      → v_line < no_addr
      → bit_or v_line proc.proc_mask % p.num_sets ≡ v_line % p.num_sets
      → req.line_addr ≡ bit_or v_line filler.proc_mask
      → finish req w ≡ some (resp, w')
      → (q : Filter) × (invalidate proc access finish p req w ≡ some (resp, q, w'))
        × Forgets q v_line
  unfolding invalidate
  invalidate-Forgets filler p v_line req w w' resp one pair fits same addr run = (
    drop_line proc access finish p req.line_addr,
    rw run,
    rw (addr, one) (drop_line-Forgets p v_line pair fits same),
  )

  paired_refill :
      (old : Entry) (v_line : ℕ) (is_load : Bool) (resp : ℕ)
      → ((refill proc access finish old v_line is_load resp).wr_addr ≡ no_addr)
        ⊎ ((refill proc access finish old v_line is_load resp).wr_addr
            ≡ (refill proc access finish old v_line is_load resp).rd_addr)
  unfolding refill
  paired_refill old v_line true resp = inl refl
  paired_refill old v_line false resp = inr refl

  -- A miss of the filter, where the cache answers and leaves paired entries: the cache's response
  -- cycle is returned, the entries are paired after it, and the next load of the line is answered by the
  -- filter without the cache, no earlier than it is made.
  pub replace_then_hit :
      (p : Filter) (v_addr : ℕ) (is_load : Bool) (cur_cycle pc : ℕ) (w w' u : W)
      (resp next next_pc : ℕ) (entries : Array Entry)
      → access
          (request proc access finish p (v_addr / 2 ^ proc.line_bits) is_load cur_cycle pc)
          p.filter_array
          w
        ≡ some (resp, entries, w')
      → Paired (record p { filter_array = entries })
      → (q : Filter) × (cycle : ℕ) × (replace proc access finish p
            (v_addr / 2 ^ proc.line_bits)
            (v_addr / 2 ^ proc.line_bits % p.num_sets)
            is_load
            cur_cycle
            pc
            w
          ≡ some (resp, q, w'))
        × Paired q
        × (load proc access finish q v_addr next next_pc u
            ≡ some (cycle, record q { fgets_hit = q.fgets_hit + 1 }, u))
        × (next ≤ cycle)
  unfolding replace load refill
  replace_then_hit p v_addr is_load cur_cycle pc w w' u resp next next_pc entries run pair =
      let v_line = v_addr / 2 ^ proc.line_bits in
      let idx = v_line % p.num_sets in
      let entry = refill proc access finish (entries idx) v_line is_load resp in
      let q = record p { filter_array = write entries idx entry } in
      (
        q,
        max next entry.avail_cycle,
        rw run,
        λ j. elim (Bool-cases (j == idx)) [
          | inl e ↦ rw e (paired_refill (entries idx) v_line is_load resp)
          | inr e ↦ rw e (pair j)
        ],
        rw (==_refl idx, ==_refl v_line),
        omega arith,
      )
