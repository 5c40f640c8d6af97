-- ===== src/Event.antt =====
-- The rank event (src/event): what each player has to reach, who has reached it, and their places.
pub mod Domain
pub mod Board
pub mod Slots
pub mod Judging
mod Tests
