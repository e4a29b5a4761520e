-- ===== src/Client.antt =====
-- src/tcp_handling.rs: one client connection. The state, then the handlers, then the event loop.
pub mod State
pub mod Publish
pub mod Subscribe
pub mod Session
pub mod Kept
pub mod Publications
pub mod Invariant
pub mod Guests
pub mod Retains
pub mod Ended
pub mod Written
pub mod Connection
pub mod UnitTests
