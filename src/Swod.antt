-- ===== src/Swod.antt =====
-- SWOD, the segment-window discard shaper: swod.h and swod.c.
pub mod State
pub mod Geometry
pub mod Policy
pub mod Group
pub mod Hold
pub mod Lookup
pub mod Search
pub mod Eval
pub mod Worker
pub mod Issue
pub mod Init
pub mod Rebuild
pub mod FragIpu
pub mod Hints
pub mod Inv
pub mod Tests
