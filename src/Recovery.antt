-- ===== src/Recovery.antt =====
-- The write-ahead log and recovery (src/recovery, src/include/recovery).
pub mod Codec
pub mod Value
pub mod LogRecord
pub mod LogManager
pub mod Tuples
pub mod Replay
pub mod Tests
