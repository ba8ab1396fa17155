-- ===== src/Delta.antt =====
-- `DeltaBaseBackup` of pghoard/basebackup/delta.py: how the files of a snapshot are split into chunks
-- and single files, which files are uploaded, and the sizes that are reported. A digest is a text,
-- and an empty one is no digest. The compression, the hash and the snapshot itself are not modelled.
pub mod Chunks
pub mod Upload
use pghoard.Base.{
  Bool, List, Option, Result, Text, [], elem, false, if◌then◌else◌, key_error, ltb, none, not, ok,
  or_raise, other_error, raise, some, text_eq, true, ℕ, ◌&&◌, ◌*◌, ◌++◌, ◌+◌, ◌/◌, ◌==◌, ◌>>=◌,
  ◌||◌, ◌∷◌,
}

-- `SnapshotFile`, of which `should_be_bundled` is a property.
pub record SnapshotFile : Type 0 where
  pub relative_path : Text
  pub file_size : ℕ
  pub stored_file_size : ℕ
  pub hexdigest : Text
  pub content_b64 : Option Text
  pub should_be_bundled : Bool
  pub missing_ok : Bool

-- An element of a `FilesChunk`, a tuple whose second component, the local path, follows from the
-- first one.
pub record ChunkFile : Type 0 where
  pub relative_path : Text
  pub missing_ok : Bool

-- `set.add`; a set of tuples is in the order of insertion.
unfoldable pub is_same_file : ChunkFile → ChunkFile → Bool
unfolding text_eq
is_same_file x y =
    text_eq x.relative_path y.relative_path
    && (if x.missing_ok then y.missing_ok else not y.missing_ok)

unfoldable pub add_to_chunk : ChunkFile → List ChunkFile → List ChunkFile
unfolding is_same_file
add_to_chunk x [] = x ∷ []
add_to_chunk x (y ∷ ys) =
    let rest = add_to_chunk x ys in if is_same_file x y then y ∷ ys else y ∷ rest

abbrev pub chunk_file : SnapshotFile → ChunkFile
chunk_file file = record { relative_path = file.relative_path; missing_ok = file.missing_ok }

-- The variables of `_split_files_for_upload`.
pub record Split : Type 0 where
  pub delta_chunks : List (List ChunkFile)
  pub current_chunk : List ChunkFile
  pub current_chunk_size : ℕ
  pub todo_hexdigests : List Text

unfoldable pub is_empty {ℓ} : {A : Type ℓ} → List A → Bool
is_empty [] = true
is_empty (x ∷ xs) = false

-- `set.add`
unfoldable pub add_digest : Text → List Text → List Text
unfolding elem
add_digest h hs = if elem h hs then hs else h ∷ hs

-- A file of its own: nothing to do without a digest or for a tracked one.
unfoldable pub split_single : List Text → SnapshotFile → Split → Split
unfolding is_empty elem add_digest
split_single skip_hexdigests file st =
    if is_empty file.hexdigest || elem file.hexdigest skip_hexdigests
    then st
    else record st { todo_hexdigests = add_digest file.hexdigest st.todo_hexdigests }

-- The current chunk is closed.
unfoldable pub close_chunk : Split → Split
close_chunk st = record st {
  delta_chunks = st.delta_chunks ++ st.current_chunk ∷ [];
  current_chunk = [];
  current_chunk_size = 0;
}

unfoldable pub put_in_chunk : SnapshotFile → Split → Split
unfolding add_to_chunk
put_in_chunk file st = record st {
  current_chunk = add_to_chunk (chunk_file file) st.current_chunk;
  current_chunk_size = st.current_chunk_size + file.file_size;
}

unfoldable pub split_bundled : ℕ → SnapshotFile → Split → Split
unfolding is_empty close_chunk put_in_chunk
split_bundled chunk_size file st =
    if not (is_empty st.current_chunk) && ltb chunk_size (st.current_chunk_size + file.file_size)
    then put_in_chunk file (close_chunk st)
    else put_in_chunk file st

unfoldable pub split_file : ℕ → List Text → SnapshotFile → Split → Split
unfolding split_single split_bundled
split_file chunk_size skip_hexdigests file st =
    if file.should_be_bundled
    then split_bundled chunk_size file st
    else split_single skip_hexdigests file st

unfoldable pub split_files : ℕ → List Text → List SnapshotFile → Split → Split
unfolding split_file
split_files chunk_size skip_hexdigests [] st = st
split_files chunk_size skip_hexdigests (file ∷ files) st =
    split_files chunk_size skip_hexdigests files (split_file chunk_size skip_hexdigests file st)

abbrev pub nothing_split : Split
nothing_split = record {
  delta_chunks = [];
  current_chunk = [];
  current_chunk_size = 0;
  todo_hexdigests = [];
}

-- The last chunk, if there is one.
unfoldable pub close_last : Split → Split
unfolding is_empty close_chunk
close_last st = if is_empty st.current_chunk then st else close_chunk st

-- `_split_files_for_upload`, for a snapshot that has a state.
unfoldable pub split_files_for_upload :
    ℕ → List Text → List SnapshotFile → List (List ChunkFile) × List Text
unfolding split_files close_last
split_files_for_upload chunk_size skip_hexdigests files =
    let st = close_last (split_files chunk_size skip_hexdigests files nothing_split) in
    (st.delta_chunks, st.todo_hexdigests)

-- `chunks_max_progress` of `run`, a percentage rounded down; a division by zero raises.
unfoldable pub chunks_max_progress : ℕ → ℕ → Result ℕ
chunks_max_progress delta_chunks_count todo_count =
    if delta_chunks_count + todo_count == 0
    then raise other_error
    else ok (delta_chunks_count * 100 / (delta_chunks_count + todo_count))

-- `UploadedFilesMetric`
pub record UploadedFilesMetric : Type 0 where
  pub input_size : ℕ
  pub stored_size : ℕ
  pub count : ℕ

unfoldable pub add_metric : ℕ → ℕ → UploadedFilesMetric → UploadedFilesMetric
add_metric input stored metric = record {
  input_size = metric.input_size + input;
  stored_size = metric.stored_size + stored;
  count = metric.count + 1;
}

-- `tracked_snapshot_files`, by the digest
unfoldable pub tracked_size : Text → List SnapshotFile → Option ℕ
tracked_size h [] = none
tracked_size h (file ∷ files) =
    let rest = tracked_size h files in
    if text_eq h file.hexdigest then some file.stored_file_size else rest

-- The stored size of a file with a digest, patched from the tracked files where it is not known.
unfoldable pub stored_size_of : Text → List SnapshotFile → SnapshotFile → Result ℕ
unfolding tracked_size
stored_size_of empty_file_hash tracked file =
    if file.stored_file_size == 0 && not (text_eq file.hexdigest empty_file_hash)
    then or_raise (tracked_size file.hexdigest tracked) key_error
    else ok file.stored_file_size

-- The digests' metric and the embedded files' one.
abbrev pub Metrics : Type 0
Metrics = UploadedFilesMetric × UploadedFilesMetric

unfoldable pub has_content : Option Text → Bool
unfolding is_empty
has_content none = false
has_content (some content) = not (is_empty content)

unfoldable pub read_delta_size : Text → List SnapshotFile → SnapshotFile → Metrics → Result Metrics
unfolding stored_size_of add_metric is_empty has_content
read_delta_size empty_file_hash tracked file (digests, embed) =
    if file.should_be_bundled
    then ok (digests, embed)
    else if not (is_empty file.hexdigest)
    then (stored_size_of empty_file_hash tracked file >>= λ stored.
        ok (add_metric file.file_size stored digests, embed))
    else if has_content file.content_b64
    then ok (digests, add_metric file.file_size file.file_size embed)
    else ok (digests, embed)

-- `_read_delta_sizes`, from the metrics so far
unfoldable pub read_delta_sizes :
    Text → List SnapshotFile → List SnapshotFile → Metrics → Result Metrics
unfolding read_delta_size
read_delta_sizes empty_file_hash tracked [] metrics = ok metrics
read_delta_sizes empty_file_hash tracked (file ∷ files) metrics =
    read_delta_size empty_file_hash tracked file metrics
    >>= read_delta_sizes empty_file_hash tracked files
