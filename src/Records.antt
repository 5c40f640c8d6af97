-- ===== src/Records.antt =====
-- Match records (src/records): finished matches found by comparing saves, then resolved to who played
-- whom.
pub mod Domain
pub mod Comparing
pub mod Rows
pub mod Repository
pub mod Service
pub mod Invariant
pub mod Events
pub mod Sides
pub mod Matches
pub mod Attempts
pub mod Queue
pub mod Capturing
pub mod Runs
pub mod Listing
pub mod Newest
pub mod Pages
mod Tests
