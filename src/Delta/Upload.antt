-- ===== src/Delta/Upload.antt =====
-- The upload of single files in pghoard/basebackup/delta.py: `_delta_upload_hexdigest`,
-- `_submit_files_in_thread` and `_upload_single_delta_files`. The threads are read as one that takes
-- the digests in some order. Compression and hash of a file are what reading it gives.
pub mod Cleanup
use pghoard.Base.{Bool, List, Text, [], elem, false, if◌then◌else◌, text_eq, true, ℕ, ◌++◌, ◌∷◌}
use pghoard.Delta.{SnapshotFile, UploadedFilesMetric, add_metric, add_digest}

-- What comes of a file of the snapshot: it is no file any more, it cannot be opened, another
-- exception, or its size, its stored size and its digest.
pub data Reading : Type 0 where
  gone not_found broken : Reading
  stored_as : ℕ → ℕ → Text → Reading

-- `update_snapshot_file_data`
pub record FileData : Type 0 where
  pub relative_path : Text
  pub hexdigest : Text
  pub file_size : ℕ
  pub stored_file_size : ℕ

pub record Uploads : Type 0 where
  pub submitted_hashes : List Text
  pub new_hashes : List (Text × (ℕ × ℕ))
  pub transfer_queue : List Text
  pub file_data : List FileData

-- `_delta_upload_hexdigest` from the digest on: it is queued, unless it was submitted before.
unfoldable pub delta_upload_hexdigest : Text → Uploads → Uploads
unfolding elem
delta_upload_hexdigest digest s = if elem digest s.submitted_hashes then s else record s {
  submitted_hashes = digest ∷ s.submitted_hashes;
  transfer_queue = s.transfer_queue ++ digest ∷ [];
}

-- `new_hashes[digest] = sizes`
unfoldable pub set_sizes : Text → ℕ × ℕ → List (Text × (ℕ × ℕ)) → List (Text × (ℕ × ℕ))
set_sizes digest sizes [] = (digest, sizes) ∷ []
set_sizes digest sizes ((h, old) ∷ rest) =
    let later = set_sizes digest sizes rest in
    if text_eq digest h then (digest, sizes) ∷ rest else (h, old) ∷ later

-- The digest is noted as new unless it is tracked.
unfoldable pub note_new : List Text → Text → ℕ × ℕ → Uploads → Uploads
unfolding set_sizes elem
note_new tracked digest sizes s =
    if elem digest tracked then s else record s { new_hashes = set_sizes digest sizes s.new_hashes }

unfoldable pub note_data : FileData → Uploads → Uploads
note_data data_of_file s = record s { file_data = s.file_data ++ data_of_file ∷ [] }

-- A file that was compressed and hashed.
unfoldable pub submit_file : List Text → SnapshotFile → ℕ → ℕ → Text → Uploads → Uploads
unfolding delta_upload_hexdigest note_new note_data
submit_file tracked file size stored digest s =
    note_data
      (record {
        relative_path = file.relative_path;
        hexdigest = digest;
        file_size = size;
        stored_file_size = stored;
      })
      (note_new tracked digest (size, stored) (delta_upload_hexdigest digest s))

-- A file by what reading it gives, and then the other files.
unfoldable pub submit_read :
    List Text → SnapshotFile → (Uploads → Bool × Uploads) → Reading → Uploads → Bool × Uploads
unfolding submit_file
submit_read tracked file others gone s = (false, s)
submit_read tracked file others not_found s = (file.missing_ok, s)
submit_read tracked file others broken s = (false, s)
submit_read tracked file others (stored_as size stored digest) s =
    others (submit_file tracked file size stored digest s)

-- `_submit_files_in_thread`, on the files of a digest: whether it succeeds.
unfoldable pub submit_files :
    List Text → (SnapshotFile → Reading) → List SnapshotFile → Uploads → Bool × Uploads
unfolding submit_read
submit_files tracked read [] s = (true, s)
submit_files tracked read (file ∷ files) s =
    submit_read tracked file (submit_files tracked read files) (read file) s

-- The digests of the backup, until one fails.
unfoldable pub submit_all :
    List Text
    → (SnapshotFile → Reading)
    → (Text → List SnapshotFile)
    → List Text
    → Uploads
    → Bool × Uploads
unfolding submit_files
submit_all tracked read files_of [] s = (true, s)
submit_all tracked read files_of (digest ∷ digests) s =
    let (done, s') = submit_files tracked read (files_of digest) s in
    let rest = submit_all tracked read files_of digests s' in if done then rest else (false, s')

-- The deletion of an object is done, the object is not there, or it fails.
pub data Deletion : Type 0 where
  deleted not_there delete_failed : Deletion

-- The clean-up after a failure: the keys that are tried, up to one that fails otherwise.
unfoldable pub after_delete : Deletion → Text → List Text → List Text
after_delete delete_failed h later = h ∷ []
after_delete _ h later = h ∷ later

unfoldable pub clean_up : (Text → Deletion) → List (Text × (ℕ × ℕ)) → List Text
unfolding after_delete
clean_up delete_key [] = []
clean_up delete_key ((h, sizes) ∷ rest) = after_delete (delete_key h) h (clean_up delete_key rest)

unfoldable pub sum_sizes : List (Text × (ℕ × ℕ)) → UploadedFilesMetric → UploadedFilesMetric
unfolding add_metric
sum_sizes [] metric = metric
sum_sizes ((h, (size, stored)) ∷ rest) metric = sum_sizes rest (add_metric size stored metric)

abbrev pub no_uploads : List Text → Uploads
no_uploads submitted = record {
  submitted_hashes = submitted;
  new_hashes = [];
  transfer_queue = [];
  file_data = [];
}

-- What `_upload_single_delta_files` ends with: a BackupFailure after the deletion of some keys, or
-- the metric, and the uploads that it queued.
pub data Ended : Type 0 where
  backup_failure : List Text → Uploads → Ended
  uploaded : UploadedFilesMetric → Uploads → Ended

unfoldable pub finish : (Text → Deletion) → Bool × Uploads → Ended
unfolding clean_up sum_sizes
finish delete_key (false, s) = backup_failure (clean_up delete_key s.new_hashes) s
finish delete_key (true, s) =
    uploaded (sum_sizes s.new_hashes (record { input_size = 0; stored_size = 0; count = 0 })) s

-- `_upload_single_delta_files` on the digests in the order in which they are taken.
unfoldable pub upload_single_delta_files :
    List Text
    → (SnapshotFile → Reading)
    → (Text → List SnapshotFile)
    → (Text → Deletion)
    → List Text
    → List Text
    → Ended
unfolding submit_all finish
upload_single_delta_files tracked read files_of delete_key submitted digests =
    finish delete_key (submit_all tracked read files_of digests (no_uploads submitted))
