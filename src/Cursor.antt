-- ===== src/Cursor.antt =====
-- FeatureCursor (src/osgGIS/FeatureCursor, src/osgGIS/FeatureCursor.cpp).
pub mod Defs
pub mod Order
mod Tests
