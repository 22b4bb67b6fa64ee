-- ===== src/Concurrency.antt =====
-- The locks of src/include/concurrency.
pub mod Locks
mod Tests
