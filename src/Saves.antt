-- ===== src/Saves.antt =====
-- The TTT2 saves (src/saves): who stands where at their current rank, and who plays at a rank now.
pub mod Domain
pub mod Board
pub mod Played
pub mod Holders
pub mod Service
pub mod Filling
mod Tests
