-- ===== src/Crypto.antt =====
-- src/crypto.rs: the replay window, the data session and the handshake framing.
pub mod Bits
pub mod Replay
pub mod Noise
pub mod Session
pub mod Handshake
