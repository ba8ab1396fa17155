-- ===== src/Tests/Delta.antt =====
-- Concrete inputs for the theorems about pghoard/basebackup/delta.py.
use pghoard.Base.{All, List, [], false, if◌then◌else◌, map, none, true, ℕ, ◌==◌, ◌∷◌, ◌≡◌}
use pghoard.Delta.{SnapshotFile, split_files_for_upload}
use pghoard.Delta.Chunks.{concat, bundled, IsChunk, tuples, split_files_for_upload_lem}
use pghoard.Delta.Upload.{Reading, stored_as, not_found}

abbrev small : ℕ → SnapshotFile
small n = record {
  relative_path = n ∷ [];
  file_size = n;
  stored_file_size = 0;
  hexdigest = [];
  content_b64 = none;
  should_be_bundled = true;
  missing_ok = true;
}

abbrev large : ℕ → SnapshotFile
large n = record {
  relative_path = n ∷ [];
  file_size = n;
  stored_file_size = 0;
  hexdigest = n ∷ [];
  content_b64 = none;
  should_be_bundled = false;
  missing_ok = false;
}

-- A file above the limit, two that fit together, and single files, one of them tracked.
abbrev snapshot : List SnapshotFile
snapshot = small 9 ∷ large 20 ∷ small 2 ∷ small 3 ∷ large 30 ∷ []

split_files_for_upload_lem_example :
    (groups : List (List SnapshotFile)) × ((split_files_for_upload 5 ((20 ∷ []) ∷ []) snapshot).0
      ≡ map tuples groups)
    × (concat groups ≡ bundled snapshot)
    × All (IsChunk 5) groups
split_files_for_upload_lem_example = split_files_for_upload_lem 5 ((20 ∷ []) ∷ []) snapshot

-- The second file of the upload is missing.
abbrev reading : SnapshotFile → Reading
reading file = if file.file_size == 20 then stored_as 20 7 (1 ∷ []) else not_found
