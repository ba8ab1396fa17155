-- ===== src/Backups/Removal.antt =====
-- `_get_delta_basebackup_files`, `delete_remote_basebackup` and `refresh_backup_list_and_delete_old`
-- of pghoard/pghoard.py. A Python set is a list without repetition; the order in which the source
-- walks a set is not fixed, here it is the order of insertion. Reading a backup's metadata file
-- (download, decryption, tar) is the parameters `delta_meta` and `chunk_meta`.
pub mod Digests
pub mod Selected
pub mod Shared
pub mod Refresh
use pghoard.Base.{
  Bool, List, Option, Result, Text, [], assertion_error, codes, elem, false, guard, if◌then◌else◌,
  key_error, map, none, ok, path_join, raise, some, text_eq, true, ℕ, ◌++◌, ◌>>=◌, ◌>>◌, ◌∷◌,
}
use pghoard.Wal.Lsn.{Lsn}
use pghoard.Backups.Info.{Basebackup, Metadata, BaseBackupFormat, v1, v2, delta_v1, delta_v2}
use pghoard.Backups.Retention.{RetentionConfig, Selection, determine_backups_to_delete}
use pghoard.Backups.WalSweep.{
  Deletion, Sweep, finished, and_then, of_result, delete_remote_wal_before,
}

-- The manifest of a delta backup: the hexdigests of its files, empty where a file has none, and the
-- names of its chunks.
pub record DeltaMeta : Type 0 where
  pub hexdigests : List Text
  pub chunks : List Text

-- `metadata["format"] in delta_formats`
unfoldable pub is_delta : Option BaseBackupFormat → Result Bool
is_delta none = raise key_error
is_delta (some delta_v1) = ok true
is_delta (some delta_v2) = ok true
is_delta (some _) = ok false

-- `set.add`
unfoldable pub add : Text → List Text → List Text
add x xs = if elem x xs then xs else x ∷ xs

-- `|=` with the hexdigests that are not empty
unfoldable pub add_digests : List Text → List Text → List Text
unfolding add
add_digests [] xs = xs
add_digests ([] ∷ ds) xs = add_digests ds xs
add_digests ((c ∷ d) ∷ ds) xs = add (c ∷ d) (add_digests ds xs)

-- `set.difference`
unfoldable pub difference : List Text → List Text → List Text
difference [] ys = []
difference (x ∷ xs) ys = let rest = difference xs ys in if elem x ys then rest else x ∷ rest

-- The dictionary of the backups to look at: the kept delta backups, and the one to delete.
unfoldable pub delta_backups : List Basebackup → Result (List Basebackup)
unfolding is_delta
delta_backups [] = ok []
delta_backups (b ∷ bs) = do
  delta ← is_delta b.metadata.format
  rest ← delta_backups bs
  ok (if delta then b ∷ rest else rest)

-- What the loop has gathered.
pub record Gathered : Type 0 where
  pub all_hexdigests : List Text
  pub keep_hexdigests : List Text
  pub bundles : List Text

-- A kept backup of the same name is replaced in the dictionary by the one to delete.
unfoldable pub without_name : Text → List Basebackup → List Basebackup
without_name name [] = []
without_name name (b ∷ bs) =
    let rest = without_name name bs in if text_eq b.name name then rest else b ∷ rest

module _ (delta_meta : Text → Metadata → Result DeltaMeta) (prefix : Text) where
  unfoldable pub bundle_path : Text → Text
  bundle_path chunk = path_join (path_join prefix (codes "basebackup_delta_chunk")) chunk

  unfoldable pub digest_path : Text → Text
  digest_path hexdigest = path_join (path_join prefix (codes "basebackup_delta")) hexdigest

  -- One kept backup adds to both sets.
  unfoldable pub gather_kept : List Basebackup → Gathered → Result Gathered
  unfolding add_digests
  gather_kept [] g = ok g
  gather_kept (b ∷ bs) g = do
    meta ← delta_meta (path_join (path_join prefix (codes "basebackup")) b.name) b.metadata
    gather_kept bs (record g {
      all_hexdigests = add_digests meta.hexdigests g.all_hexdigests;
      keep_hexdigests = add_digests meta.hexdigests g.keep_hexdigests;
    })

  unfoldable pub gather_deleted : Text → Metadata → Gathered → Result Gathered
  unfolding add_digests bundle_path
  gather_deleted name metadata g = do
    meta ← delta_meta (path_join (path_join prefix (codes "basebackup")) name) metadata
    ok (record g {
      all_hexdigests = add_digests meta.hexdigests g.all_hexdigests;
      bundles = map bundle_path meta.chunks;
    })

  unfoldable pub get_delta_basebackup_files : Metadata → Text → List Basebackup → Result (List Text)
  unfolding is_delta delta_backups gather_kept gather_deleted without_name difference digest_path
  get_delta_basebackup_files metadata name backups_to_keep = do
    delta ← is_delta metadata.format
    guard delta assertion_error
    backups ← delta_backups backups_to_keep
    let none_yet : Gathered = record { all_hexdigests = []; keep_hexdigests = []; bundles = [] }
    g ← gather_kept (without_name name backups) none_yet
    h ← gather_deleted name metadata g
    ok (h.bundles ++ map digest_path (difference h.all_hexdigests h.keep_hexdigests))

  module _ (chunk_meta : Text → Metadata → Result (List Text)) where
    unfoldable pub chunk_path : Text → Text
    chunk_path chunk = path_join (path_join prefix (codes "basebackup_chunk")) chunk

    -- The objects of a backup beside its main one, by the format in its metadata.
    unfoldable pub data_keys :
        Option BaseBackupFormat → Text → Text → Metadata → List Basebackup → Result (List Text)
    unfolding get_delta_basebackup_files chunk_path
    data_keys (some v2) main_key name metadata backups = do
      chunks ← chunk_meta main_key metadata
      ok (map chunk_path chunks)
    data_keys (some delta_v1) main_key name metadata backups =
        get_delta_basebackup_files metadata name backups
    data_keys (some delta_v2) main_key name metadata backups =
        get_delta_basebackup_files metadata name backups
    data_keys _ main_key name metadata backups = ok []

    -- `basebackup_data_files`: the keys of the objects that make up a backup, the main one first.
    unfoldable pub basebackup_data_files : Text → Metadata → List Basebackup → Result (List Text)
    unfolding data_keys
    basebackup_data_files name metadata backups = do
      let main_key = path_join (path_join prefix (codes "basebackup")) name
      keys ← data_keys metadata.format main_key name metadata backups
      ok (main_key ∷ keys)

    module _ {S : Type 0} (delete_key : S → Text → Deletion × S) where
      -- Every key is tried once; a deletion that fails does not stop the others.
      unfoldable pub delete_keys : List Text → S → S
      delete_keys [] s = s
      delete_keys (key ∷ keys) s = delete_keys keys (delete_key s key).1

      unfoldable pub delete_remote_basebackup : Text → Metadata → List Basebackup → S → Result S
      unfolding basebackup_data_files delete_keys
      delete_remote_basebackup name metadata backups s = do
        keys ← basebackup_data_files name metadata backups
        ok (delete_keys keys s)

      -- `if last_wal_segment_still_needed`
      unfoldable pub delete_before : Text → Option ℕ → S → Sweep S
      unfolding delete_remote_wal_before
      delete_before [] pg_version s = finished [] s
      delete_before (c ∷ cs) pg_version s =
          delete_remote_wal_before delete_key prefix (c ∷ cs) pg_version s

      -- The WAL that no kept backup needs: nothing if none is kept or the oldest has no segment.
      unfoldable pub delete_unneeded_wal : List Basebackup → Option ℕ → S → Sweep S
      unfolding delete_before
      delete_unneeded_wal [] pg_version s = finished [] s
      delete_unneeded_wal (k ∷ ks) pg_version s =
          delete_before k.metadata.start_wal_segment pg_version s

      -- `for basebackup_to_be_deleted in basebackups_to_delete`
      unfoldable pub delete_each : List Basebackup → List Basebackup → S → Sweep S
      unfolding delete_unneeded_wal delete_remote_basebackup
      delete_each kept [] s = finished [] s
      delete_each kept (b ∷ bs) s =
          and_then (delete_unneeded_wal kept b.metadata.pg_version s) (λ s'.
            and_then (of_result (delete_remote_basebackup b.name b.metadata kept s'))
              (delete_each kept bs))

      -- `basebackups` is what `get_remote_basebackups_info` returns. Beside the deletions, the list
      -- that the state holds afterwards.
      unfoldable pub refresh_backup_list_and_delete_old :
          Bool → RetentionConfig → ℕ → ℕ → List Basebackup → S → Sweep S × List Basebackup
      unfolding delete_each determine_backups_to_delete
      refresh_backup_list_and_delete_old active c now current_time basebackups s =
          let chosen = determine_backups_to_delete c now current_time basebackups in
          if active
          then (delete_each chosen.kept chosen.to_delete s, chosen.kept)
          else (finished [] s, basebackups)
