-- ===== src/Cache.antt =====
-- The tag arrays of zsim/src/cache_arrays.cpp, the filter cache, and a cache without children.
pub mod SetAssoc
pub mod Filter
pub mod Terminal
pub mod Zcache
