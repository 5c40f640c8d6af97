-- ===== src/Reservation.antt =====
-- The reservation module (src/reservation): a host books a play session, others join it.
pub mod Domain
pub mod Window
pub mod Rows
pub mod Statements
pub mod Repository
pub mod Comments
pub mod Invariant
pub mod Seats
pub mod Bulk
pub mod Joining
pub mod Leaving
pub mod Cancelling
pub mod Editing
pub mod Listing
pub mod Service
pub mod Requests
pub mod Steps
pub mod History
pub mod Returning
pub mod Closing
mod Tests
