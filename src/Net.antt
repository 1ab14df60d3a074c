-- ===== src/Net.antt =====
-- The socket layer.
pub mod Result
pub mod Framing
pub mod ClientSocket
pub mod Interest
pub mod Tasks
pub mod Control
pub mod Listen
pub mod Counters
pub mod Loop
mod Runs
