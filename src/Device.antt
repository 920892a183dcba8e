-- ===== src/Device.antt =====
-- Server/Device: the constructor, and the threads that serve one device of a client.
pub mod Text
pub mod Watcher
pub mod Commands
pub mod Mailbox
pub mod Arrival
pub mod Relay
pub mod Life
