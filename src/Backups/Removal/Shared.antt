-- ===== src/Backups/Removal/Shared.antt =====
-- The files that delta backups share, in `_get_delta_basebackup_files` of pghoard/pghoard.py.
use pghoard.Base.{List, Result, Text, [], codes, elem, false, ok, path_join, text_eq, true, ◌≡◌}
use pghoard.Backups.Info.{Basebackup, Metadata}
use pghoard.Backups.Removal.{DeltaMeta, is_delta, Gathered}
use pghoard.Backups.Removal.Selected.{In}

abbrev none_yet : Gathered
none_yet = record { all_hexdigests = []; keep_hexdigests = []; bundles = [] }

module _ (delta_meta : Text → Metadata → Result DeltaMeta) (prefix : Text) where
  -- The key of a backup's main object.
  abbrev pub main_key : Text → Text
  main_key name = path_join (path_join prefix (codes "basebackup")) name

  -- Another delta backup that is kept names the digest.
  abbrev pub IsShared : List Basebackup → Text → Text → Type 0
  IsShared kept name d =
      (b : Basebackup) × (meta : DeltaMeta) × In b kept
      × (is_delta b.metadata.format ≡ ok true)
      × (text_eq b.name name ≡ false)
      × (delta_meta (main_key b.name) b.metadata ≡ ok meta)
      × (elem d meta.hexdigests ≡ true)
