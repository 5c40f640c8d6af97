-- ===== src/Cache.antt =====
-- The in-process cache of src/shared/cache.py.
pub mod Store
pub mod Laws
mod Tests
