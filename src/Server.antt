-- ===== src/Server.antt =====
-- src/server.rs: the server's shared tables, its handshake handler and its three loops.
pub mod RateLimit
pub mod State
pub mod Invariant
pub mod Handshake
pub mod Downlink
pub mod Uplink
pub mod Reaper
pub mod Run
pub mod Settings
pub mod Setup
