-- ===== src/Memory.antt =====
-- The memory pool.
pub mod Pool
pub mod Mgr
mod Runs
