-- ===== src/Link.antt =====
-- The link layer: core/src/link/*.rs.
pub mod Limiter
pub mod Driver
mod Runs
