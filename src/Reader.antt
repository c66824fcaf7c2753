-- ===== src/Reader.antt =====
-- SmartReadCallback, which reads model files through a cache (src/osgGIS/SmartReadCallback.cpp).
pub mod Defs
pub mod Recent
pub mod Transparent
pub mod Refines
mod Tests
