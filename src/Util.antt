-- ===== src/Util.antt =====
-- src/util.rs: decimal text and the index ranges of the Redis commands.
pub mod Decimal
pub mod RoundTrip
pub mod Unsigned
pub mod Range
mod Tests
