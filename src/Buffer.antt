-- ===== src/Buffer.antt =====
-- The buffer layer: the two replacement policies, the page table, and the pool that owns the frames.
pub mod Lru
pub mod Clock
pub mod PageTable
pub mod Pool
mod Tests
