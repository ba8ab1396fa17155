-- ===== src/Sync/Missing.antt =====
-- `check_and_upload_missing_local_files` of pghoard/archive_sync.py. `head` is the answer to a HEAD
-- request: no file, or a file with the hash in its headers, if it has one. `our_hash` is the hash of
-- a local file, none where it is gone, and `normal` is `lower().strip()`.
pub mod Needed
pub mod Order
pub mod Complete
use pghoard.Base.{
  Bool, List, Option, Text, [], codes, drop, false, if◌then◌else◌, leb, length, ltb, none, not,
  some, text_eq, text_lt, true, ℕ, ◌&&◌, ◌++◌, ◌+◌, ◌-◌, ◌==◌, ◌||◌, ◌∷◌,
}
use pghoard.Wal.Lsn.{is_wal_name, is_timeline_name}

pub data Head : Type 0 where
  absent : Head
  archived : Option Text → Head

-- What is done with a file of the directory: an empty `archive_type`, one of the two types, or the
-- end of the loop.
pub data ArchiveType : Type 0 where
  not_archived timeline wal stop : ArchiveType

-- `first_required_wal_file is not None and wal_file < first_required_wal_file`
unfoldable pub is_before : Option Text → Text → Bool
unfolding text_lt
is_before none wal_file = false
is_before (some first_required) wal_file = text_lt wal_file first_required

unfoldable pub archive_type_of : Text → Option Text → Text → ArchiveType
unfolding is_before text_eq text_lt
archive_type_of current first_required wal_file =
    if is_timeline_name wal_file
    then timeline
    else if not (is_wal_name wal_file)
    then not_archived
    else if text_eq wal_file current || text_lt current wal_file
    then not_archived
    else if is_before first_required wal_file
    then stop
    else wal

-- `f.endswith(".history")`
unfoldable pub ends_in_history : Text → Bool
ends_in_history name =
    leb 8 (length name) && text_eq (drop (length name - 8) name) (codes ".history")

-- The order of the keys `(f.endswith(".history"), f)`.
unfoldable pub key_lt : Text → Text → Bool
unfolding ends_in_history text_lt
key_lt a b =
    if ends_in_history a then ends_in_history b && text_lt a b else ends_in_history b || text_lt a b

-- Python's stable sort, from the right; the order says which of two goes first.
unfoldable pub insert_by : (Text → Text → Bool) → Text → List Text → List Text
insert_by before x [] = x ∷ []
insert_by before x (y ∷ ys) =
    let rest = insert_by before x ys in if before y x then y ∷ rest else x ∷ y ∷ ys

unfoldable pub sort_by : (Text → Text → Bool) → List Text → List Text
unfolding insert_by
sort_by before [] = []
sort_by before (x ∷ xs) = insert_by before x (sort_by before xs)

-- The variables of the loop.
pub record Missing : Type 0 where
  pub need_archival : List Text
  pub hash_checks_done : ℕ
  pub existing_wal_without_checksum_count : ℕ

abbrev pub needed : Text → Missing → Missing
needed wal_file st = record st { need_archival = st.need_archival ++ wal_file ∷ [] }

-- `hash_checks_done < max_hash_checks or max_hash_checks < 0`; no maximum is a negative one.
unfoldable pub may_check : Option ℕ → Missing → Bool
may_check none st = true
may_check (some max_hash_checks) st = ltb st.hash_checks_done max_hash_checks

module _ (our_hash : Text → Option Text) (normal : Text → Text) (max_hash_checks : Option ℕ) where
  unfoldable pub compare_hash : Text → Text → Option Text → Missing → Missing
  unfolding text_eq
  compare_hash wal_file remote_hash none st = st
  compare_hash wal_file remote_hash (some ours) st =
      if text_eq (normal remote_hash) (normal ours) then st else needed wal_file st

  -- A segment that is archived already, by its hash there.
  unfoldable pub check_wal : Text → Option Text → Missing → Missing
  unfolding compare_hash may_check
  check_wal wal_file (some (c ∷ remote_hash)) st =
      if may_check max_hash_checks st
      then compare_hash wal_file (c ∷ remote_hash) (our_hash wal_file)
          (record st { hash_checks_done = st.hash_checks_done + 1 })
      else st
  check_wal wal_file _ st =
      if st.existing_wal_without_checksum_count == 0
      then needed wal_file (record st { existing_wal_without_checksum_count = 1 })
      else record st {
        existing_wal_without_checksum_count = st.existing_wal_without_checksum_count + 1;
      }

  unfoldable pub check_head : ArchiveType → Text → Head → Missing → Missing
  unfolding check_wal
  check_head archive_type wal_file absent st = needed wal_file st
  check_head wal wal_file (archived remote_hash) st = check_wal wal_file remote_hash st
  check_head _ wal_file (archived remote_hash) st = st

  -- A file by its type, and then the other ones.
  unfoldable pub visit : ArchiveType → Text → Head → (Missing → Missing) → Missing → Missing
  unfolding check_head
  visit stop wal_file answer others st = st
  visit not_archived wal_file answer others st = others st
  visit timeline wal_file answer others st = others (check_head timeline wal_file answer st)
  visit wal wal_file answer others st = others (check_head wal wal_file answer st)

  -- The loop over the files.
  unfoldable pub check_files : (Text → Head) → Text → Option Text → List Text → Missing → Missing
  unfolding archive_type_of visit
  check_files head current first_required [] st = st
  check_files head current first_required (wal_file ∷ wal_files) st =
      visit (archive_type_of current first_required wal_file) wal_file (head wal_file)
        (check_files head current first_required wal_files) st

  -- The files that are put, in their order; a failed request is only logged.
  unfoldable pub check_and_upload_missing_local_files :
      (Text → Head) → Text → Option Text → List Text → List Text
  unfolding sort_by key_lt check_files text_lt
  check_and_upload_missing_local_files head current first_required listing =
      sort_by text_lt
        (check_files head current first_required (sort_by (λ a b. key_lt b a) listing) (record {
          need_archival = [];
          hash_checks_done = 0;
          existing_wal_without_checksum_count = 0;
        })).need_archival
