-- ===== src/Basebackup.antt =====
-- pghoard/basebackup/base.py: the files of a base backup (Basebackup/Files) and their chunks
-- (Basebackup/Split).
pub mod Files
pub mod Split
pub mod Upload
pub mod Session
