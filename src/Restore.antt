-- ===== src/Restore.antt =====
-- pghoard/restore.py: the choice of a backup, the settings of the restored server, and the download.
pub mod Choice
pub mod Conf
pub mod Fetcher
pub mod Unpack
