-- ===== src/Popup.antt =====
-- The popups that admins write and visitors see (src/popup).
pub mod Domain
pub mod Repository
pub mod Images
pub mod Service
pub mod Freshness
mod Tests
