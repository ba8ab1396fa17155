-- ===== src/Tests/Sync.antt =====
-- Concrete inputs for the theorems about the check of the archive.
use pghoard.Base.{
  Bool, List, Text, [], arith, codes, false, not, refl, some, text_eq, true, ℕ, ◌*◌, ◌^◌, ◌∷◌, ◌≡◌,
}
use pghoard.Wal.Hex.{int16, hex08}
use pghoard.Wal.Lsn.{
  Lsn, seg, segments_per_xlogid, equals, from_walfile_name, walfile_name,
  previous_walfile_start_lsn,
}
use pghoard.Sync.{walk, integrity_walk, check_wal_archive_integrity}
use pghoard.Sync.Ending.{has_ended, integrity_walk_ends}
use pghoard.Sync.Found.{InArchive, check_wal_archive_integrity-InArchive}

abbrev current : Text
current = codes "000000010000000000000004"

abbrev required : Text
required = codes "000000010000000000000002"

-- An archive that has lost the segment 3.
abbrev has_all_but_three : Text → Bool
has_all_but_three name = not (text_eq name (codes "000000010000000000000003"))

integrity_walk_ends_example :
    has_ended (integrity_walk has_all_but_three current required (some 150000)) ≡ true
integrity_walk_ends_example = integrity_walk_ends has_all_but_three current required (some 150000)

abbrev at_segment : ℕ → Lsn
at_segment k = record { lsn = k * 2 ^ 24; server_version = some 150000; timeline_id = some 1 }

check_wal_archive_integrity-InArchive_example : InArchive (λ name. true) 3
unfolding from_walfile_name int16 segments_per_xlogid check_wal_archive_integrity integrity_walk
    walk previous_walfile_start_lsn walfile_name seg hex08 equals
check_wal_archive_integrity-InArchive_example =
    check_wal_archive_integrity-InArchive (λ name. true) false b'0'
      (codes "00000010000000000000004") required (some 150000) (at_segment 4) (at_segment 2) 3 refl
      refl (omega arith) refl (omega arith) (omega arith)

-- The directory has an old segment, two that are to be archived, the current one and a timeline's file.
abbrev directory : List Text
directory =
    codes "000000010000000000000001"
    ∷ current
    ∷ codes "000000010000000000000003"
    ∷ codes "00000002.history"
    ∷ required
    ∷ []
