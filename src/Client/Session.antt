-- ===== src/Client/Session.antt =====
-- The client library and the server together: a login and a message on their way through both.
pub mod SentOn
pub mod Dispatched
pub mod Login
pub mod Chat
pub mod Stored
mod Runs
