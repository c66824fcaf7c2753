-- ===== src/Property.antt =====
-- Property and Properties (src/osgGIS/Property, src/osgGIS/Property.cpp).
pub mod Defs
pub mod Laws
mod Tests
