-- ===== src/Sync.antt =====
-- The sync layer: core/src/sync/*.rs.
pub mod Error
pub mod Varint
pub mod Bound
pub mod IdSum
pub mod Negentropy
pub mod Session
pub mod Runs
