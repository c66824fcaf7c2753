-- ===== src/Attribute.antt =====
-- Attributes of features and their tables (src/osgGIS/Attribute.cpp).
pub mod Defs
pub mod Table
mod Tests
