-- ===== src/Server.antt =====
-- src/server.rs, by parts.
pub mod Token
pub mod Partial
pub mod Create
pub mod Packet
pub mod Collect
pub mod Loop
