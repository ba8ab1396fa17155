-- ===== src/Sync.antt =====
-- `check_wal_archive_integrity` of pghoard/archive_sync.py. `head` says whether the HTTP interface
-- answers a HEAD request for a name with 200. A SyncError is `other_error`.
pub mod Found
pub mod Ending
pub mod Missing
use pghoard.Base.{
  Bool, Error, List, Option, Result, Text, [], false, if◌then◌else◌, none, ok, other_error, raise,
  some, suc, true, type_error, zero, ℕ, ◌*◌, ◌+◌, ◌/◌, ◌^◌, ◌∷◌,
}
use pghoard.Wal.Lsn.{
  Lsn, equals, from_walfile_name, walfile_name, previous_walfile_start_lsn, at_timeline,
}

-- How the loop ends: the segments that were found, or the one that is missing, or an exception.
pub data Walk : Type 0 where
  complete : List Lsn → Walk
  incomplete : Lsn → Walk
  raised : Error → Walk
  out_of_fuel : Walk

abbrev pub with_found : Lsn → Walk → Walk
with_found l (complete ls) = complete (l ∷ ls)
with_found l (incomplete m) = incomplete m
with_found l (raised e) = raised e
with_found l out_of_fuel = out_of_fuel

module _ (head : Text → Bool) (first_required : Lsn) where
  -- After the answer for a segment of a timeline; `next` is the loop. Below timeline 0 the name has a
  -- sign, and is in no archive.
  unfoldable pub after_head : (Lsn → Bool → Walk) → Lsn → Bool → Option ℕ → Bool → Walk
  unfolding equals
  after_head next l valid_timeline t true =
      if equals l first_required then complete (l ∷ []) else with_found l (next l true)
  after_head next l true (some (suc t)) false = next (at_timeline l t) false
  after_head next l true _ false = incomplete l
  after_head next l false t false = incomplete l

  -- The request for the segment.
  unfoldable pub ask : (Lsn → Bool → Walk) → Lsn → Bool → Result Text → Walk
  unfolding after_head
  ask next l valid_timeline (raise e) = raised e
  ask next l valid_timeline (ok wal_file) =
      after_head next l valid_timeline l.timeline_id (head wal_file)

  -- The segment before; where there is none, `None` has no name.
  unfoldable pub ask_before : (Lsn → Bool → Walk) → Option Lsn → Walk
  unfolding ask
  ask_before next none = raised type_error
  ask_before next (some p) = ask next p true (walfile_name p)

  -- `while True`
  unfoldable pub walk : ℕ → Lsn → Bool → Walk
  unfolding ask ask_before
  walk zero l valid_timeline = out_of_fuel
  walk (suc fuel) l true = ask_before (walk fuel) (previous_walfile_start_lsn l)
  walk (suc fuel) l false = ask (walk fuel) l false (walfile_name l)

-- The loop from the current segment on, with fuel for two rounds at each segment before it.
unfoldable pub walk_from : (Text → Bool) → Result Lsn → Result Lsn → Walk
unfolding walk
walk_from head (raise e) first_required = raised e
walk_from head (ok l) (raise e) = raised e
walk_from head (ok l) (ok first_required) =
    walk head first_required (2 * (l.lsn / 2 ^ 24) + 1) l true

unfoldable pub integrity_walk : (Text → Bool) → Text → Text → Option ℕ → Walk
unfolding walk_from
integrity_walk head current_wal_file first_required_wal_file pg_version =
    walk_from head (from_walfile_name current_wal_file pg_version)
      (from_walfile_name first_required_wal_file pg_version)

-- The exit code, and whether a backup was requested.
unfoldable pub outcome_of : Bool → Walk → Result (ℕ × Bool)
outcome_of new_backup_on_failure (complete ls) = ok (0, false)
outcome_of true (incomplete l) = ok (0, true)
outcome_of false (incomplete l) = raise other_error
outcome_of new_backup_on_failure (raised e) = raise e
outcome_of new_backup_on_failure out_of_fuel = raise other_error

-- An empty name is none.
unfoldable pub check_wal_archive_integrity :
    (Text → Bool) → Bool → Text → Option Text → Option ℕ → Result (ℕ × Bool)
unfolding outcome_of integrity_walk
check_wal_archive_integrity head new_backup [] first_required pg_version = raise other_error
check_wal_archive_integrity head new_backup (c ∷ current) none pg_version = raise other_error
check_wal_archive_integrity head new_backup (c ∷ current) (some first_required) pg_version =
    outcome_of new_backup (integrity_walk head (c ∷ current) first_required pg_version)
