-- ===== src/Core/QuickList.antt =====
-- src/core/quicklist.rs: a list as a sequence of chunks.
pub mod Item
pub mod Chunk
pub mod Ends
pub mod Index
pub mod Remove
pub mod Runs
mod Tests
