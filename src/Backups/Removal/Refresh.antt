-- ===== src/Backups/Removal/Refresh.antt =====
-- The retention run of a site as a whole: `refresh_backup_list_and_delete_old` of
-- pghoard/pghoard.py.
use pghoard.Wal.Lsn.{Lsn}
