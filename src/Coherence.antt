-- ===== src/Coherence.antt =====
-- zsim/src/coherence_ctrls.h and coherence_ctrls.cpp: the MESI controllers.
pub mod Bottom
pub mod Top
pub mod Race
pub mod Composite
