-- ===== src/Idempotency.antt =====
-- The idempotency module (src/idempotency): the stored answers of writes, by their keys.
pub mod Store
pub mod Once
mod Tests
