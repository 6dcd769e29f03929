-- ===== src/Core/Listpack.antt =====
-- src/core/listpack.rs: the listpack codec.
mod Tests
pub mod Header
pub mod Backlen
pub mod Number
pub mod Encode
pub mod Decode
pub mod Validate
pub mod Build
