-- ===== src/Matching.antt =====
-- The matchmaking module (src/matching): rooms of the game server and who is searching for one.
pub mod Rooms
pub mod Tracker
pub mod Players
pub mod Phantoms
pub mod Connection
pub mod Leaderboard
pub mod Listing
mod Tests
