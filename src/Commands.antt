-- ===== src/Commands.antt =====
-- src/commands/exec: the commands, over the data structures.
pub mod Streams
