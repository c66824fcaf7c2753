-- ===== src/Shapes.antt =====
-- Shapes of features, polygons and the filters that work on their parts
-- (src/osgGIS/GeoShape.cpp, Utils.cpp, DecimateFilter.cpp, RemoveHolesFilter.cpp,
-- ChangeShapeTypeFilter.cpp).
pub mod Shape
pub mod Polygon
pub mod Parts
pub mod Cache
pub mod Ends
pub mod Decimate
mod Tests
