-- ===== src/Text.antt =====
-- StringUtils and PathUtils (src/osgGIS/Utils.cpp).
pub mod Defs
pub mod Trim
pub mod Replace
mod Tests
