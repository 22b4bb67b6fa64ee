-- ===== src/Index.antt =====
-- The pages of the B+ tree of src/storage/page, and its keys.
pub mod Node
pub mod Key
mod Tests
