-- ===== src/Common.antt =====
-- The helpers of src/include/common.
pub mod Xor
pub mod Crc32
pub mod Tests
