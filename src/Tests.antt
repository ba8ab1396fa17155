-- ===== src/Tests.antt =====
-- The theorems at concrete inputs.
mod Wal
mod Tar
mod Backups
mod Schedule
mod Compressor
mod Transfer
mod Cleanup
mod Versions
mod Receiver
mod Restore
mod Web
mod Basebackup
mod Connection
mod Delta
mod Sync
mod Command
