-- ===== src/Client.antt =====
-- The client library, socket_message_client/socket_message_sdk: its sockets and the thread that waits
-- for them, and the interface that its user has.
pub mod Connect
pub mod Select
pub mod Control
pub mod Sdk
pub mod Manage
pub mod Session
mod Runs
