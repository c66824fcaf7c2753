-- ===== src/Grid.antt =====
-- The cells of a gridded map layer (src/osgGISProjects/GriddedMapLayerCompiler.cpp).
pub mod Defs
pub mod Keys
pub mod Queue
pub mod Walk
mod Tests
