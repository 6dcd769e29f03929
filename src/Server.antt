-- ===== src/Server.antt =====
-- src/server: the state that a server thread keeps.
pub mod SlowLog
pub mod Journal
