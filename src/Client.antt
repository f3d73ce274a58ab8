-- ===== src/Client.antt =====
-- client.go: the client that every namespace calls, by its tasks.
pub mod Values
pub mod Config
pub mod Command
pub mod Settings
pub mod Batch
pub mod Api
pub mod Response
pub mod Position
pub mod Job
pub mod Import
mod Tests
