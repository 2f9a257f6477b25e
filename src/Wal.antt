-- ===== src/Wal.antt =====
-- The write-ahead log: include/wal.h and coordinator/wal_format.c.
pub mod Format
pub mod Codec
pub mod Replay
pub mod Writer
pub mod Opening
pub mod Tests
