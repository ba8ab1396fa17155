-- ===== src/Delta/Upload/Cleanup.antt =====
-- The digests that an upload in pghoard/basebackup/delta.py queues and that its failure deletes.
use pghoard.Base.{All, List, Text, [], elem, false, true, ◌∷◌, ◌≡◌}
use pghoard.Delta.Upload.{Uploads, Ended, backup_failure, uploaded}

abbrev pub Untracked : List Text → Text → Type 0
Untracked tracked digest = elem digest tracked ≡ false

-- No digest is queued twice.
unfoldable pub Distinct : List Text → Type 0
Distinct [] = Unit
Distinct (h ∷ hs) = (elem h hs ≡ false) × Distinct hs

abbrev pub Submitted : Uploads → Text → Type 0
Submitted s digest = elem digest s.submitted_hashes ≡ true

-- What holds during the upload.
Consistent : List Text → Uploads → Type 0
Consistent tracked s =
    All (λ p. Untracked tracked p.0) s.new_hashes
    × Distinct s.transfer_queue
    × All (Submitted s) s.transfer_queue
    × All (λ d. Submitted s d.hexdigest) s.file_data

-- What is promised of the end: no digest was queued twice, every file of the manifest has a digest
-- that was submitted, and the keys that a failure deletes are those of no tracked file.
pub IsSafe : List Text → Ended → Type 0
IsSafe tracked (backup_failure keys s) = Distinct s.transfer_queue × All (Untracked tracked) keys
IsSafe tracked (uploaded metric s) =
    Distinct s.transfer_queue × All (λ d. elem d.hexdigest s.submitted_hashes ≡ true) s.file_data
