-- ===== src/Repl.antt =====
-- The replacement policies of zsim/src/repl_policies.h, rrip_repl.h, ship_repl.h, hawkeye_repl.h.
pub mod Policy
pub mod Samples
pub mod Aging
pub mod Srrip
pub mod Ship
pub mod Optgen
pub mod Hawkeye
pub mod Lru
pub mod Nru
pub mod Lfu
pub mod Profile
pub mod Random
pub mod WayPart
pub mod TreeLru
