-- ===== src/Wire.antt =====
-- The messages of DataType.h.
pub mod Bytes
pub mod Login
pub mod Counted
pub mod Users
pub mod Groups
pub mod Msgs
pub mod RoundTrip
mod Runs
