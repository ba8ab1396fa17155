-- ===== src/Schedule.antt =====
-- When PGHoard takes a base backup: the scheduling of pghoard/pghoard.py.
pub mod BackupTime
pub mod Details
pub mod Site
