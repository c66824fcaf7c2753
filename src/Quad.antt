-- ===== src/Quad.antt =====
-- The quadtree of the map (src/osgGISProjects/QuadKey.cpp).
pub mod Key
pub mod Digits
pub mod Cells
pub mod Best
pub mod Ends
mod Tests
