-- ===== src/Server.antt =====
-- The server's parts around the socket layer.
pub mod ThreadPool
pub mod Online
pub mod Database
pub mod DataHandler
pub mod Blocks
pub mod Connection
pub mod Logger
pub mod Main
mod Runs
