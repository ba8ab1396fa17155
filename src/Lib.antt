-- ===== src/Lib.antt =====
-- A verification library for PGHoard, the backup daemon of PostgreSQL.
--
-- PGHoard runs beside a PostgreSQL server. It receives or is given WAL segments, checks and
-- compresses them, uploads them to an object store, takes base backups by a schedule, deletes the
-- backups and WAL segments that its retention limits no longer ask for, and restores from what the
-- store holds. The parts meet in queues and in the names of the objects in the store.
--
-- The modules and the code that each one is about:
--   Base           lists, texts, Python's exceptions as a result type, shared by the others
--   Wal            pghoard/wal.py: LSN (Wal/Lsn), names of segments (Wal/Hex, Wal/Names), the
--                  neighbours of a segment (Wal/Neighbours), the header of a segment and
--                  verify_wal (Wal/Header, Wal/Verify)
--   Backups        retention in pghoard/pghoard.py: determine_backups_to_delete
--                  (Backups/Retention), delete_remote_wal_before (Backups/WalSweep),
--                  _get_delta_basebackup_files, delete_remote_basebackup and
--                  refresh_backup_list_and_delete_old (Backups/Removal); requests to preserve
--                  a backup in pghoard/preservation_request.py (Backups/Preservation)
--   Schedule       the schedule of base backups in pghoard/pghoard.py:
--                  get_normalized_backup_time (Schedule/BackupTime), get_new_backup_details
--                  (Schedule/Details), handle_site (Schedule/Site)
--   Tar            pghoard/gnutaremu.py: the statements of --transform (Tar/Sed) and the names of
--                  extracted files (Tar/Names)
--   Compressor     pghoard/compressor.py: the loop of CompressorThread and its retries
--                  (Compressor/Loop), WALFileDeleterThread (Compressor/Deleter)
--   Transfer       pghoard/transfer.py: handle_upload and its retries through the queue
--                  (Transfer/Agent), the statistics of TransferAgent (Transfer/Stats)
--   Cleanup        archive_cleanup of pghoard/archive_cleanup.py
--   Versions       check_pg_versions_ok of pghoard/pghoard.py
--   Receiver       pghoard/walreceiver.py: the messages of the replication stream and the flush
--                  positions
--   Restore        pghoard/restore.py: the choice of a backup (Restore/Choice),
--                  create_recovery_conf (Restore/Conf), the jobs of BasebackupFetcher
--                  (Restore/Fetcher), the arguments of tar (Restore/Unpack)
--   Web            pghoard/webserver.py: the paths and PUT requests (Web/Requests), the shared
--                  state and finished downloads (Web/Server), what is fetched ahead
--                  (Web/Prefetch), the request for a file (Web/Download)
--   Delta          pghoard/basebackup/delta.py: the chunks (Delta/Chunks) and the single files of a
--                  delta backup (Delta/Upload)
--   Sync           pghoard/archive_sync.py: check_wal_archive_integrity, and the upload of missing
--                  files (Sync/Missing)
--   Command        pghoard/postgres_command.py: the exit codes of the archive and restore commands
--   Basebackup     pghoard/basebackup/base.py: the scan for files (Basebackup/Files), their chunks
--                  (Basebackup/Split), the statements sent to the server (Basebackup/Session), and
--                  the upload of chunks of pghoard/basebackup/chunks.py (Basebackup/Upload)
--   Connection     pghoard/pgutil.py: connection strings
--   Tests          concrete inputs at which the theorems apply
--
-- How the code is read. A dictionary of the source that is read by key is a record or an
-- association list, text is a list of code points, time is a count of microseconds, and an
-- exception is a value of Base/Errors. The object store is a parameter: a function from its state
-- and a key to the outcome of a deletion and the next state, about which nothing is supposed except
-- where a theorem names it. The functions that read the metadata of an object are parameters too.
--
-- Loops. `sweep` of Backups/WalSweep has fuel 2 * (lsn / 2^24) + 1, two rounds for every segment
-- before the first needed one and one to end: each round goes to an earlier segment or to an earlier
-- timeline. The loop of `get_normalized_backup_time` has fuel 25, since a day is passed after 24
-- steps of an hour or more. `walk` of Sync has fuel 2 * (lsn / 2^24) + 1, as `sweep` has. `upload_loop` of
-- Basebackup/Upload has a round for each chunk and for each look at the queue, and one to end.
-- `parse_loop` of Connection has one for each code point and one to end, since every field has an
-- equals sign. All other loops are structural.
--
-- Not modelled: logging and metrics; the start of the WAL receiver in `handle_site`; the
-- fractions of a day that `total_seconds` has below a microsecond; what int() accepts beside
-- hexadecimal digits (blanks, signs, underscores, other scripts). `struct.unpack` is read on a
-- little-endian machine.
-- The loops of the compressor and of the transfer agent are modelled on the events that come out of
-- their queues; other threads that fill these queues meanwhile, and the waits on an empty one, are
-- not. In Web/Download the other threads are arguments: any change of the shared state between two
-- looks of the loop. In Basebackup/Upload the tasks of the thread pool are their outcomes, and the
-- arrivals in the queue of transfers are an argument. Of pghoard/restore.py the directories and
-- tablespaces of _get_basebackup and the process pool are not modelled, of webserver.py the HTTP
-- server, the status, the metrics and HEAD requests, of walreceiver.py the connection, of
-- basebackup/delta.py the snapshot, of basebackup/base.py the processes of pg_basebackup and the
-- metadata of a backup, of basebackup/chunks.py the tar files, of pgutil.py the form of a URL, of
-- pghoard.py the notifications of files, the walk at the start and the reload of the configuration.
-- Neither are config.py and the file and JSON helpers of common.py, nor what only calls other programs
-- and libraries: fetcher.py, receivexlog.py, object_store.py, create_keys.py and the monitoring.
-- In a request for a WAL file the check of a file and its rename are one step, also where the source
-- holds no lock over them.
pub mod Base
pub mod Wal
pub mod Tar
pub mod Backups
pub mod Schedule
pub mod Compressor
pub mod Transfer
pub mod Cleanup
pub mod Versions
pub mod Receiver
pub mod Restore
pub mod Delta
pub mod Sync
pub mod Command
pub mod Web
pub mod Basebackup
pub mod Connection
mod Tests
