-- ===== src/History.antt =====
-- Room activity and its statistics (src/history).
pub mod Rows
pub mod Repository
pub mod Recording
pub mod Snapshots
pub mod Collector
pub mod Days
mod Tests
