-- ===== src/Geo.antt =====
-- Points and extents on the map (src/osgGIS/GeoPoint.cpp, src/osgGIS/GeoExtent.cpp).
pub mod Point
pub mod Extent
pub mod Relate
pub mod Expand
pub mod Cover
pub mod Meet
pub mod Grid
mod Tests
