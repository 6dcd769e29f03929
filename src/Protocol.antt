-- ===== src/Protocol.antt =====
-- src/protocol: the wire format.
pub mod Resp
