-- ===== src/Noise.antt =====
-- The session layer: core/src/noise/*.rs.
pub mod Primitives
pub mod Cipher
pub mod Symmetric
pub mod Transport
pub mod Handshake
pub mod Runs
