-- ===== src/Core/Stream.antt =====
-- src/core/stream.rs: streams, their entries and consumer groups.
pub mod Id
pub mod Tree
pub mod Defs
pub mod Trim
pub mod Groups
pub mod Live
pub mod Bounds
pub mod Exact
pub mod Edits
pub mod Delivery
pub mod NoLoss
pub mod Ack
mod Tests
