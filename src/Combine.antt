-- ===== src/Combine.antt =====
-- CombineLinesFilter (src/osgGIS/CombineLinesFilter.cpp).
pub mod Defs
pub mod Join
pub mod Flags
pub mod Map
pub mod Step
pub mod Round
pub mod Loop
pub mod Result
pub mod Conserve
mod Tests
