-- ===== src/Storage.antt =====
-- The storage layer: bytes, the slotted page, the free-page bitmap.
pub mod Memory
pub mod TablePage
pub mod TableHeap
pub mod Tuple
pub mod FreePages
mod Tests
