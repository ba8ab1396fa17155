-- ===== src/Tests/Backups.antt =====
-- Concrete inputs for the theorems about the retention of base backups.
use pghoard.Base.{
  Bool-cases, List, Option, Result, Text, [], codes, elem, if◌then◌else◌, inl, inr, length, none,
  ok, refl, some, text_eq, true, ℕ, ◌*◌, ◌++◌, ◌^◌, ◌∷◌, ◌≡◌, ◌≢◌, ◌≤◌, ◌⊎◌,
}
use pghoard.Wal.Hex.{int16}
use pghoard.Wal.Lsn.{Lsn, from_walfile_name, segments_per_xlogid}
use pghoard.Backups.Info.{Basebackup, Metadata, scheduled, delta_v2, is_basebackup_preserved}
use pghoard.Backups.Preservation.{PreservationRequest}
use pghoard.Backups.Retention.{RetentionConfig, determine_backups_to_delete, allowed_count, day}
use pghoard.Backups.Retention.Choice.{
  determine_backups_to_delete_limit, determine_backups_to_delete_preserved,
}
use pghoard.Backups.WalSweep.{Deletion, deleted, not_found, failed, delete_remote_wal_before}
use pghoard.Backups.WalSweep.Ending.{IsFinished, delete_remote_wal_before_ends}
use pghoard.Backups.Removal.{DeltaMeta}

abbrev backup : Text → ℕ → Option ℕ → Basebackup
backup name started until = record {
  name = name;
  metadata = record {
    start_time = started;
    backup_decision_time = started;
    backup_reason = scheduled;
    normalized_backup_time = none;
    start_wal_segment = codes "00000001000000000000000A";
    pg_version = some 130000;
    format = some delta_v2;
    preserve_until = until;
  };
}

abbrev first : Basebackup
first = backup (codes "a") (1 * day) none

abbrev second : Basebackup
second = backup (codes "b") (2 * day) none

abbrev third : Basebackup
third = backup (codes "c") (3 * day) (some (90 * day))

abbrev three : List Basebackup
three = first ∷ second ∷ third ∷ []

abbrev site : RetentionConfig
site = record {
  basebackup_count = some 2;
  basebackup_count_min = 1;
  basebackup_age_days_max = some 5;
  basebackup_interval_hours = some 24;
}

abbrev now : ℕ
now = 10 * day

only_the_preserved_one : (determine_backups_to_delete site now now three).kept ≡ third ∷ []
unfolding determine_backups_to_delete is_basebackup_preserved
only_the_preserved_one = refl

abbrev request : ℕ → PreservationRequest
request until = record { preserve_backup = codes "a"; preserve_until = until }

-- A store as the list of its keys: a deletion finds its key or not, and never fails otherwise.
without : Text → List Text → List Text
without key [] = []
without key (k ∷ ks) = let rest = without key ks in if text_eq key k then rest else k ∷ rest

delete_in : List Text → Text → Deletion × List Text
delete_in keys key = (if elem key keys then deleted else not_found, without key keys)

answers : (s : List Text) (key : Text) → (delete_in s key).0 ≢ failed
unfolding delete_in
answers s key e = elim (Bool-cases (elem key s)) [
  | inl there ↦ cc (rw there at e)
  | inr missing ↦ cc (rw missing at e)
]

abbrev needed : Lsn
needed = record { lsn = 10 * 2 ^ 24; server_version = some 130000; timeline_id = some 1 }

needed_named : from_walfile_name (codes "00000001000000000000000A") (some 130000) ≡ ok needed
unfolding from_walfile_name int16 segments_per_xlogid
needed_named = refl

determine_backups_to_delete_limit_example :
    (length (determine_backups_to_delete site now now three).kept ≤ allowed_count site three)
    ⊎ ((b : Basebackup) × (rest : List Basebackup) × ((determine_backups_to_delete site now now
            three).kept
          ≡ b ∷ rest)
        × (is_basebackup_preserved b now ≡ true))
determine_backups_to_delete_limit_example = determine_backups_to_delete_limit site now now three

determine_backups_to_delete_preserved_example :
    (ws : List Basebackup) × ((determine_backups_to_delete site now now three).kept
      ≡ ws ++ third ∷ [])
unfolding is_basebackup_preserved
determine_backups_to_delete_preserved_example =
    determine_backups_to_delete_preserved site now now (first ∷ second ∷ []) third [] refl

delete_remote_wal_before_ends_example : IsFinished (
    delete_remote_wal_before delete_in
      (codes "site")
      (codes "00000001000000000000000A")
      (some 130000)
      [])
delete_remote_wal_before_ends_example =
    delete_remote_wal_before_ends delete_in (codes "site") answers
      (codes "00000001000000000000000A") (some 130000) needed [] needed_named

refusing : ℕ → Text → Deletion × ℕ
refusing s key = (failed, s)

sample_meta : Text → Metadata → Result DeltaMeta
sample_meta name m = ok (record { hexdigests = codes "d1" ∷ []; chunks = codes "c1" ∷ [] })
