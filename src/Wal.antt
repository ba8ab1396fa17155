-- ===== src/Wal.antt =====
-- pghoard/wal.py: log sequence numbers, the names of WAL segments, and the check of a segment's
-- header. A text is the list of its code points; Python's integers are not bounded.
pub mod Hex
pub mod Lsn
pub mod Header
pub mod Names
pub mod Neighbours
pub mod Verify
