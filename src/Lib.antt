-- ===== src/Lib.antt =====
-- zsim: models of the memory hierarchy of a multicore simulator, and what they satisfy.
--
-- The program simulates a multicore machine. Each cache of it is a tag array, a replacement policy
-- and a coherence controller. A request goes from a core to the first cache; a cache that lacks the
-- line, or the permission, asks its parent; a parent invalidates or downgrades the copies of the
-- other children. Modelled are the replacement policies, the set-associative array that calls
-- them, the filter in front of a cache, the two halves of a MESI controller with the check for races
-- between them, the controller that they make together, a cache without children, the queue of events
-- by cycle, and the barrier between the phases of the simulated threads.
--
-- Files, with the code that they are about:
--   Hierarchy: zsim/src/memory_hierarchy.h, the requests (MemReq, InvReq) and the MESI states.
--   Repl/Policy: ReplPolicy of zsim/src/repl_policies.h as an interface with laws, and the order in
--     which an array calls a policy: `update` on a hit; `rank`, `replaced` and `update` on a miss.
--   Repl/Aging: the search for a victim that SRRIP and SHiP share.
--   Repl/Srrip, Repl/Ship: zsim/src/rrip_repl.h and zsim/src/ship_repl.h.
--   Repl/Optgen, Repl/Hawkeye: zsim/src/hawkeye_repl.h, classes optgen, hawkeye_predictor and
--     HawkeyeReplPolicy (`observe` is the training at the head of `update` and `rank`).
--   Repl/Lru, Repl/TreeLru, Repl/Nru, Repl/Lfu: the classes of these names of zsim/src/repl_policies.h.
--   Repl/Random, Repl/Profile: RandReplPolicy and ProfViolReplPolicy of the same file.
--   Repl/WayPart: WayPartReplPolicy of zsim/src/part_repl_policies.h.
--   Cache/Zcache: ZArray of zsim/src/cache_arrays.cpp, and its insertion.
--   Cache/SetAssoc: SetAssocArray of zsim/src/cache_arrays.cpp, over any policy.
--   Cache/Filter: FilterCache of zsim/src/filter_cache.h.
--   Cache/Terminal: `Cache::access` and `Cache::finishInvalidate` of zsim/src/cache.cpp over
--     MESITerminalCC of zsim/src/coherence_ctrls.h and a set-associative array.
--   Queue: PrioQueue of zsim/src/prio_queue.h, the events of the contention model by cycle.
--   Barrier: zsim/src/barrier.h, the threads' joins, leaves and synchronisations at the end of each
--     phase; Barrier/Steps has the order in which the scheduler may call it.
--   Coherence/Bottom: MESIBottomCC of zsim/src/coherence_ctrls.cpp, a cache towards its parents.
--   Coherence/Top: MESITopCC of the same file, the directory of a cache towards its children.
--   Coherence/Composite: MESICC of zsim/src/coherence_ctrls.h, the two halves in a cache with children.
--   Coherence/Race: CheckForMESIRace of zsim/src/coherence_ctrls.h.
--   Base: Boolean tests, words with their wrap-around, arrays and lists.
-- In each, a class is a record, a method a function from the state to the new state, and a failed
-- assertion or a panic is `none`. The files below a component hold its lemmas; the files called
-- Tests hold concrete runs.
--
-- What is not under the program's own sources is a parameter: the hash of a program counter's text
-- in SHiP, the draws of the random policy and of the barrier's shuffle. So are the calls that leave a component: the parents'
-- `access`, the children's `invalidate`, the hash family of an array (zsim/src/hash.h, any of its
-- classes), the answers of the coherence controller to LRU and LFU, the scheduler's callback at the end of a phase, the
-- partition of a request and the monitor of a partitioned cache. The theorems on the directory
-- take terminal caches as the children, whose `invalidate` is that of Coherence/Bottom.
--
-- Bounds and fuel: the searches of SRRIP and SHiP make at most rpvmax + 1 and 4 rounds, and the theorems
-- show that these are enough. The loops of OPTgen make at most vector_size + 1 rounds where vector_size
-- (8 slots for each way) divides 2^32, and the theorems on OPTgen and Hawkeye assume that it does; for
-- other sizes, such as the 96 slots of 12 ways, the program's search can go on for ever, and the model
-- returns `none` at every fuel that the tests try. The search of the event queue takes as many rounds as
-- there are blocks up to the next event. The barrier's loops end by themselves, and recurse on the rounds
-- left. Words wrap where the program's do. Profiling counters, and the count of invalidations that one
-- call sends (at most MAX_CACHE_CHILDREN), are plain numbers. Reads and writes past the end of an array
-- are not modelled.
--
-- Linked lists: a list of the event queue is a List. Whether the `next` of an event is set when it is handed
-- over is the interface Linked, which the assertion of PQBlock::enqueue reads.
-- The locks are not modelled: a call of a controller is one step, which is what its lock gives, and
-- invalidations that come in between are a list in Coherence/Race.
--
-- Not modelled: a cache over the controller with children (its controller is), the ideal arrays, the
-- timing caches and the contention model, the cores, the scheduler, the memory controllers, the
-- partitioning that computes in floating point, and the input and output of the simulator.
pub mod Barrier
pub mod Base
pub mod Cache
pub mod Coherence
pub mod Hierarchy
pub mod Queue
pub mod Repl
