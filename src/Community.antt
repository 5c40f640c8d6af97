-- ===== src/Community.antt =====
-- The community board (src/community): posts, comments with replies, and votes.
pub mod Rows
pub mod Rules
pub mod Repository
pub mod Invariant
pub mod Posts
pub mod Comments
pub mod Votes
pub mod Service
pub mod History
pub mod Threads
pub mod Reading
mod Tests
