-- ===== src/Tests/Basebackup.antt =====
-- Concrete inputs for the theorems about pghoard/basebackup/base.py and chunks.py.
use pghoard.Base.{
  All, Bool, List, Result, Text, [], arith, codes, false, if◌then◌else◌, map, ok, os_error,
  other_error, raise, refl, text_eq, true, ℕ, ◌+◌, ◌==◌, ◌||◌, ◌∷◌, ◌≡◌, ◌≤◌, ◌⊎◌,
}
use pghoard.Basebackup.Files.{
  BackupFile, Item, regular, directory, gone, Contents, listed, Entries, no_entries, entry,
  Tablespace, find_files_to_backup,
}
use pghoard.Basebackup.Files.Forest.{IsWalk, find_files_to_backup-IsWalk}
use pghoard.Basebackup.Files.Names.{NodeNames, ContentsNames}
use pghoard.Basebackup.Session.{
  Statement, pg_backup_start, pg_backup_stop, labelfile_of_backup_stop, select_tablespaces, commit,
  rollback, Row, Log, run_backup,
}
use pghoard.Basebackup.Session.Settled.{IsSettled}
use pghoard.Basebackup.Session.Stopped.{run_backup-IsSettled}
use pghoard.Basebackup.Upload.{finished, create_and_upload_chunks}
use pghoard.Basebackup.Upload.Order.{completed, handle_in_order}
use pghoard.Basebackup.Upload.Results.{create_and_upload_chunks_in_order}
use pghoard.Basebackup.Upload.Ending.{create_and_upload_chunks_ends}
use pghoard.Basebackup.Split.{find_and_split_files_to_backup}
use pghoard.Basebackup.Split.Folders.{StandsAlone, NoSlash}
use pghoard.Basebackup.Split.Alone.{find_and_split_files_to_backup-StandsAlone}
use pghoard.Basebackup.Split.Groups.{placed_files}
use pghoard.Basebackup.Split.Placing.{IsSplit, find_and_split_files_to_backup-IsSplit}
use pghoard.Basebackup.Split.Raised.{find_and_split_files_to_backup_raises}

-- A version file, a process file, and a folder with a control file, a relation and a file that is
-- gone; and a tablespace with one relation.
abbrev global : Entries
global = entry (codes "pg_control") regular (
    entry (codes "1260") regular
      (entry (codes "1213") regular (entry (codes "99") gone no_entries)))

abbrev data_directory : Contents
data_directory = listed (
    entry (codes "postmaster.pid") regular (
      entry (codes "PG_VERSION") regular
        (entry (codes "global") (directory (listed global)) no_entries)))

abbrev space : Tablespace
space = record {
  spcname = codes "ssd";
  path = codes "/mnt/ssd";
  contents = listed (entry (codes "16384") regular no_entries);
}

abbrev found_items : List Item
found_items = elim (find_files_to_backup (codes "/pg") data_directory (space ∷ [])) [
  | ok items ↦ items
  | raise error ↦ []
]

abbrev data_is_found :
    find_files_to_backup (codes "/pg") data_directory (space ∷ []) ≡ ok found_items
unfolding find_files_to_backup
data_is_found = refl

find_files_to_backup-IsWalk_example : IsWalk (codes "/pg") (space ∷ []) found_items
find_files_to_backup-IsWalk_example =
    find_files_to_backup-IsWalk (codes "/pg") data_directory (space ∷ []) found_items data_is_found

-- Every file has 8192 bytes, and a chunk should have 10000.
abbrev page : Text → Result ℕ
page path = ok 8192

abbrev split_chunks : ℕ × List (List BackupFile)
split_chunks =
    elim (find_and_split_files_to_backup page 10_000 (codes "/pg") data_directory (space ∷ [])) [
      | ok result ↦ result
      | raise error ↦ (0, [])
    ]

abbrev data_is_split :
    find_and_split_files_to_backup page 10_000 (codes "/pg") data_directory (space ∷ [])
    ≡ ok split_chunks
unfolding find_and_split_files_to_backup
data_is_split = refl

find_and_split_files_to_backup-IsSplit_example :
    (items : List Item) × (find_files_to_backup (codes "/pg") data_directory (space ∷ [])
      ≡ ok items)
    × IsSplit page 10_000 (placed_files [] items) split_chunks
find_and_split_files_to_backup-IsSplit_example =
    find_and_split_files_to_backup-IsSplit page 10_000 (codes "/pg") data_directory (space ∷ [])
      split_chunks data_is_split

-- The relation of the tablespace goes away between the scan and the look at its size.
abbrev missing_page : Text → Result ℕ
missing_page path = if text_eq path (codes "/mnt/ssd/16384") then raise os_error else ok 8192

abbrev size_is_missing :
    find_and_split_files_to_backup missing_page 10_000 (codes "/pg") data_directory (space ∷ [])
    ≡ raise os_error
unfolding find_and_split_files_to_backup text_eq
size_is_missing = refl

find_and_split_files_to_backup_raises_example :
    (find_files_to_backup (codes "/pg") data_directory (space ∷ []) ≡ raise os_error)
    ⊎ ((path : Text) × (missing_page path ≡ raise os_error))
find_and_split_files_to_backup_raises_example =
    find_and_split_files_to_backup_raises missing_page 10_000 (codes "/pg") data_directory
      (space ∷ []) os_error size_is_missing

-- Three chunks by two threads, one on disk at a time; the queue is empty at the second look.
abbrev first_bytes : ℕ → Result ℕ
first_bytes k = ok (100 + k)

abbrev arrivals : List Bool
arrivals = true ∷ false ∷ true ∷ true ∷ []

uploaded_in_order :
    create_and_upload_chunks first_bytes 1 2 3 arrivals ≡ finished (100 ∷ 101 ∷ 102 ∷ []) []
unfolding create_and_upload_chunks
uploaded_in_order = refl

create_and_upload_chunks_in_order_example :
    (handle_in_order first_bytes 3 ≡ ok (100 ∷ 101 ∷ 102 ∷ [])) × (3 ≤ completed arrivals)
create_and_upload_chunks_in_order_example =
    create_and_upload_chunks_in_order first_bytes 2 1 3 arrivals [] (100 ∷ 101 ∷ 102 ∷ [])
      uploaded_in_order

three_arrive : 3 ≤ completed arrivals
unfolding completed
three_arrive = omega arith

create_and_upload_chunks_ends_example :
    (files : List ℕ) × (left : List Bool) × (create_and_upload_chunks first_bytes 1 2 3 arrivals
      ≡ finished files left)
create_and_upload_chunks_ends_example =
    create_and_upload_chunks_ends first_bytes 2 1 3 arrivals (λ k. (100 + k, refl)) (omega arith)
      (omega arith) three_arrive

-- The server refuses the stop that reads the label.
abbrev refusing : Log → Statement → Result Row
refusing log labelfile_of_backup_stop = raise other_error
refusing log statement = ok record { text = codes "x"; in_recovery = false; is_superuser = false }

is_slashed : Text → Bool
is_slashed [] = false
is_slashed (c ∷ fn) = c == b'/' || is_slashed fn

run_backup-IsSettled_example : IsSettled (run_backup refusing 150_000 (ok tt) []).1
run_backup-IsSettled_example = run_backup-IsSettled refusing 150_000 (ok tt)

stopped_after_refusal :
    map (λ done. done.0) (run_backup refusing 150_000 (ok tt) []).1
    ≡ commit
      ∷ pg_backup_stop
      ∷ rollback
      ∷ labelfile_of_backup_stop
      ∷ commit
      ∷ select_tablespaces
      ∷ pg_backup_start (codes "pghoard_base_backup")
      ∷ []
unfolding run_backup
stopped_after_refusal = refl

-- A name that is tested to have no slash.
no_slash : (fn : Text) → is_slashed fn ≡ false → NoSlash fn
unfolding is_slashed
no_slash [] h = tt
no_slash (c ∷ fn) h = (ground (arith, h), no_slash fn (ground (arith, h)))

data_names : ContentsNames NoSlash data_directory
unfolding NodeNames is_slashed
data_names = (
  no_slash (codes "postmaster.pid") refl,
  tt,
  (
    no_slash (codes "PG_VERSION") refl,
    tt,
    (
      no_slash (codes "global") refl,
      (
        no_slash (codes "pg_control") refl,
        tt,
        (
          no_slash (codes "1260") refl,
          tt,
          (no_slash (codes "1213") refl, tt, (no_slash (codes "99") refl, tt, tt)),
        ),
      ),
      tt,
    ),
  ),
)

space_name : All (λ (spc : Tablespace). NoSlash spc.spcname) (space ∷ [])
unfolding is_slashed
space_name = (no_slash (codes "ssd") refl, tt)

space_names : All (λ (spc : Tablespace). ContentsNames NoSlash spc.contents) (space ∷ [])
unfolding NodeNames is_slashed
space_names = ((no_slash (codes "16384") refl, tt, tt), tt)

find_and_split_files_to_backup-StandsAlone_example : All (StandsAlone []) split_chunks.1
find_and_split_files_to_backup-StandsAlone_example =
    find_and_split_files_to_backup-StandsAlone page 10_000 (codes "/pg") data_directory (space ∷ [])
      split_chunks.0 split_chunks.1 data_names space_name space_names data_is_split
