-- ===== src/Core/Intset.antt =====
-- src/core/intset.rs: the intset codec.
pub mod Parse
pub mod Blob
mod Tests
