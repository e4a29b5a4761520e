-- ===== src/Tests.antt =====
-- The broker run on small inputs.
mod Setup
mod Topics
mod Client
mod Answers
mod Redis
mod Server
mod Start
mod Node
mod Esp32
mod Demo
pub mod Loop
pub mod Overflow
pub mod Bench
pub mod Drained
mod Config
pub mod FanOut
pub mod Streams
