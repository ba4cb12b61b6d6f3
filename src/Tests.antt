-- ===== src/Tests.antt =====
-- Concrete runs, on the tables in memory.
mod Worlds
pub mod Saga
pub mod Orders
pub mod Rules
pub mod Consumer
pub mod Outbox
pub mod DeadLetters
pub mod Requests
pub mod Uuid
