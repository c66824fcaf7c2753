-- ===== src/Tasks.antt =====
-- The task manager of src/osgGIS (TaskManager, TaskManager.cpp, AutoResetBlock, Task.cpp).
pub mod Thread
pub mod Manager
pub mod Moves
pub mod Account
pub mod Null
pub mod Safety
pub mod Conserve
pub mod Dispose
pub mod Serve
mod Tests
