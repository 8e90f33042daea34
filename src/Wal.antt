-- ===== src/Wal.antt =====
-- The write-ahead log of crates/wal/src. The operating system's file and the checksum are the only
-- parts that come from outside: a file is its bytes, and the checksum is a parameter.
pub mod Bytes
pub mod Record
pub mod File
pub mod Committed
pub mod Log
pub mod Recover
pub mod Written
pub mod Saved
pub mod Snapshot
pub mod Replay
pub mod Durable
pub mod Appended
pub mod Terminate
pub mod Reopen
pub mod Append
pub mod Stream
