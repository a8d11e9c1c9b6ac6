-- ===== src/Wire.antt =====
-- The wire codec: core/src/wire/*.rs.
pub mod Error
pub mod Pad
pub mod Payload
pub mod Entry
pub mod Msg
pub mod Frame
mod Runs
