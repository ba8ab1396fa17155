-- ===== src/Basebackup/Files.antt =====
-- `find_files_to_backup` of pghoard/basebackup/base.py. A tree is what the calls of `os.stat` and
-- `os.listdir` answer while the directories are scanned; a FileNotFoundError is `os_error`, and
-- there are no other errors of these calls.
pub mod Names
pub mod Forest
use pghoard.Base.{
  Bool, List, Result, Text, [], codes, elem, false, if◌then◌else◌, ok, os_error, path_join, raise,
  text_eq, text_lt, true, ◌++◌, ◌>>=◌, ◌>>◌, ◌||◌, ◌∷◌,
}
use pghoard.Tar.Names.{starts_with, ends_with}

pub data Operation : Type 0 where
  add enter leave : Operation

-- `archive_path, local_path, missing_ok`
pub record BackupFile : Type 0 where
  pub archive_path : Text
  pub local_path : Text
  pub missing_ok : Bool

pub record Item : Type 0 where
  pub file : BackupFile
  pub operation : Operation

-- What `os.stat` says of an entry: a regular file, a directory, something else, or nothing.
mutual
  pub data Node : Type 0 where
    regular : Node
    directory : Contents → Node
    special : Node
    gone : Node

  -- What `os.listdir` says of a directory, in its order.
  pub data Contents : Type 0 where
    unlisted : Contents
    listed : Entries → Contents

  pub data Entries : Type 0 where
    no_entries : Entries
    entry : Text → Node → Entries → Entries

-- `except (FileNotFoundError if missing_ok else NoException)`
unfoldable pub went_away : Bool → Result (List Item)
went_away missing_ok = if missing_ok then ok [] else raise os_error

-- The names that are left out below the top level.
unfoldable pub is_skipped : Text → Bool
unfolding text_eq starts_with
is_skipped fn = text_eq fn (codes "pg_control") || starts_with (codes "pgsql_tmp") fn

-- `sorted(contents)`, each name with what is yielded for it.
insert_by_name :
    Text × Result (List Item) → List (Text × Result (List Item)) → List (Text × Result (List Item))
unfolding text_lt
insert_by_name walk [] = walk ∷ []
insert_by_name walk (other ∷ rest) =
    let later = insert_by_name walk rest in
    if text_lt other.0 walk.0 then other ∷ later else walk ∷ other ∷ rest

unfoldable pub sort_by_name : List (Text × Result (List Item)) → List (Text × Result (List Item))
unfolding insert_by_name
sort_by_name [] = []
sort_by_name (walk ∷ walks) = insert_by_name walk (sort_by_name walks)

unfoldable pub yield_all : List (Text × Result (List Item)) → Result (List Item)
yield_all [] = ok []
yield_all (walk ∷ walks) = do items ← walk.1; rest ← yield_all walks; ok (items ++ rest)

abbrev pub enclose : BackupFile → List Item → List Item
enclose file items =
    record { file = file; operation = enter }
    ∷ (items ++ record { file = file; operation = leave } ∷ [])

unfoldable mutual
  unfolding went_away yield_all sort_by_name is_skipped path_join

  pub add_entry : Text → Text → Bool → Node → Result (List Item)
  add_entry archive_path local_path missing_ok gone = went_away missing_ok
  add_entry archive_path local_path missing_ok special = ok []
  add_entry archive_path local_path missing_ok regular = ok (
      record {
        file = record {
          archive_path = archive_path;
          local_path = local_path;
          missing_ok = missing_ok;
        };
        operation = add;
      }
      ∷ [])
  add_entry archive_path local_path missing_ok (directory contents) = do
    items ← add_directory archive_path local_path true contents
    ok (
        enclose
          record { archive_path = archive_path; local_path = local_path; missing_ok = missing_ok }
          items)

  pub add_directory : Text → Text → Bool → Contents → Result (List Item)
  add_directory archive_parent local_parent missing_ok unlisted = went_away missing_ok
  add_directory archive_parent local_parent missing_ok (listed contents) =
      yield_all (sort_by_name (walk_entries archive_parent local_parent missing_ok contents))

  pub walk_entries : Text → Text → Bool → Entries → List (Text × Result (List Item))
  walk_entries archive_parent local_parent missing_ok no_entries = []
  walk_entries archive_parent local_parent missing_ok (entry fn node contents) =
      let items =
        add_entry (path_join archive_parent fn) (path_join local_parent fn) missing_ok node in
      let rest = walk_entries archive_parent local_parent missing_ok contents in
      if is_skipped fn then rest else (fn, items) ∷ rest

unfoldable pub empty_dirs : List Text
empty_dirs =
    codes "pg_dynshmem"
    ∷ codes "pg_log"
    ∷ codes "pg_replslot"
    ∷ codes "pg_snapshot"
    ∷ codes "pg_stat_tmp"
    ∷ codes "pg_tblspc"
    ∷ codes "pg_wal"
    ∷ codes "pg_wal/archive_status"
    ∷ codes "pg_xlog"
    ∷ codes "pg_xlog/archive_status"
    ∷ []

-- The names that are left out of the top level.
unfoldable pub is_runtime_file : Text → Bool
unfolding elem empty_dirs text_eq starts_with ends_with
is_runtime_file fn =
    elem fn empty_dirs
    || text_eq fn (codes "postmaster.opts")
    || text_eq fn (codes "postmaster.pid")
    || text_eq fn (codes "backup_label")
    || text_eq fn (codes "tablespace_map")
    || ends_with (codes ".old") fn
    || ends_with (codes ".tmp") fn
    || ends_with (codes "~") fn
    || starts_with (codes ".s.") fn
    || starts_with (codes "pgsql_tmp") fn

-- The loop over the top level, which is not sorted.
unfoldable pub walk_top : Text → Entries → Result (List Item)
unfolding path_join is_runtime_file add_entry
walk_top pgdata no_entries = ok []
walk_top pgdata (entry fn node contents) =
    let rest = walk_top pgdata contents in
    if is_runtime_file fn then rest else do
      items ← add_entry (path_join (codes "pgdata") fn) (path_join pgdata fn) false node
      more ← rest
      ok (items ++ more)

pub record Tablespace : Type 0 where
  pub spcname : Text
  pub path : Text
  pub contents : Contents

unfoldable pub walk_tablespaces : List Tablespace → Result (List Item)
unfolding path_join add_directory
walk_tablespaces [] = ok []
walk_tablespaces (spc ∷ tablespaces) = do
  items ← add_directory (path_join (codes "tablespaces") spc.spcname) spc.path false spc.contents
  rest ← walk_tablespaces tablespaces
  ok (
      enclose
        record {
          archive_path = path_join (codes "tablespaces") spc.spcname;
          local_path = spc.path;
          missing_ok = false;
        }
        items
      ++ rest)

unfoldable pub find_files_to_backup : Text → Contents → List Tablespace → Result (List Item)
unfolding walk_top walk_tablespaces
find_files_to_backup pgdata unlisted tablespaces = raise os_error
find_files_to_backup pgdata (listed contents) tablespaces = do
  top ← walk_top pgdata contents
  rest ← walk_tablespaces tablespaces
  ok (top ++ rest)
