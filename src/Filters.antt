-- ===== src/Filters.antt =====
-- The filter pipeline of src/osgGIS: filter states, the checkpoint of a collection and FilterGraph.
pub mod Env
pub mod Chain
pub mod Traverse
pub mod Groups
pub mod Checkpoint
pub mod Graph
pub mod Quiet
pub mod Metering
pub mod Drain
pub mod Outcome
pub mod Assign
pub mod Overwrite
pub mod Names
mod Tests
