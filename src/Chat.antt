-- ===== src/Chat.antt =====
-- The chat module (src/chat): messages, their live streams, and what a stream opens with.
pub mod Domain
pub mod Bus
pub mod Streams
pub mod Repository
pub mod Postgres
pub mod Memory
pub mod Service
mod Tests
