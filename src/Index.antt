-- ===== src/Index.antt =====
-- The spatial indexes (src/osgGIS/RTree.cpp.inline, RTreeSpatialIndex.cpp, SimpleSpatialIndex.cpp).
pub mod Boxes
pub mod Node
pub mod Split
pub mod Groups
pub mod Division
pub mod Tree
pub mod Inv
pub mod Entries
pub mod Search
pub mod Extent
pub mod Table
pub mod Halve
pub mod Halved
pub mod Relinked
pub mod Refresh
pub mod Refreshed
pub mod Link
pub mod Grow
pub mod Place
pub mod Adjust
pub mod Step
pub mod Climb
pub mod Insert
pub mod Service
pub mod Refine
pub mod File
pub mod Lines
pub mod Reload
pub mod Keep
pub mod Cached
pub mod Rounded
pub mod Reopened
pub mod OfExtents
pub mod Unary
mod Tests
