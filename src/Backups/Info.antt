-- ===== src/Backups/Info.antt =====
-- What PGHoard knows of a base backup, the formats of pghoard/common.py, and
-- pghoard/preservation_request.py. A time is the number of microseconds since an epoch, in UTC: the
-- source parses every timestamp into an aware datetime. A time in ISO format stands as the time.
use pghoard.Base.{Bool, Option, Text, false, ltb, none, some, ℕ}

pub data BaseBackupFormat : Type 0 where
  v1 v2 delta_v1 delta_v2 : BaseBackupFormat

pub data BackupReason : Type 0 where
  requested scheduled : BackupReason

-- The metadata as the object store lists it; `none` is a key that is not there.
pub record StoredMetadata : Type 0 where
  pub start_time : ℕ
  pub backup_decision_time : Option ℕ
  pub backup_reason : Option BackupReason
  pub normalized_backup_time : Option (Option ℕ)
  pub start_wal_segment : Text
  pub pg_version : Option ℕ
  pub format : Option BaseBackupFormat

-- The metadata after `patch_basebackup_info` and `patch_basebackup_metadata_with_preservation`.
pub record Metadata : Type 0 where
  pub start_time : ℕ
  pub backup_decision_time : ℕ
  pub backup_reason : BackupReason
  pub normalized_backup_time : Option ℕ
  pub start_wal_segment : Text
  pub pg_version : Option ℕ
  pub format : Option BaseBackupFormat
  pub preserve_until : Option ℕ

pub record Basebackup : Type 0 where
  pub name : Text
  pub metadata : Metadata

-- `is_basebackup_preserved`
unfoldable pub is_basebackup_preserved : Basebackup → ℕ → Bool
is_basebackup_preserved entry now = elim entry.metadata.preserve_until [
  | none ↦ false
  | some preserve_until ↦ ltb now preserve_until
]
