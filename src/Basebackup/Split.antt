-- ===== src/Basebackup/Split.antt =====
-- `find_and_split_files_to_backup` of pghoard/basebackup/base.py. `getsize` is `os.path.getsize`, and
-- a size is compared with a fifth of the target by multiplying it by 5. The scan for files is a
-- generator in the source; here it comes first, so that of two exceptions that of the scan is raised.
pub mod Groups
pub mod Placing
pub mod Raised
pub mod Folders
pub mod Alone
use pghoard.Base.{
  List, Result, Text, [], if◌then◌else◌, index_error, ltb, ok, raise, ℕ, ◌&&◌, ◌*◌, ◌++◌, ◌+◌,
  ◌>>=◌, ◌>>◌, ◌∷◌,
}
use pghoard.Basebackup.Files.{
  Operation, add, enter, leave, BackupFile, Item, Contents, Tablespace, find_files_to_backup,
}

-- The variables of the loop.
pub record Chunking : Type 0 where
  pub total_file_count : ℕ
  pub one_chunk_size : ℕ
  pub one_chunk_files : List BackupFile
  pub chunks : List (List BackupFile)
  pub entered_folders : List BackupFile

-- `list.pop()`
unfoldable pub without_last {ℓ} : {A : Type ℓ} → A → List A → List A
without_last x [] = []
without_last x (y ∷ xs) = x ∷ without_last y xs

unfoldable pub pop {ℓ} : {A : Type ℓ} → List A → Result (List A)
unfolding without_last
pop [] = raise index_error
pop (x ∷ xs) = ok (without_last x xs)

-- A chunk that has at least a fifth of the target is closed before a file that would tip it over; the
-- next one begins with the folders that are open.
unfoldable pub switch_chunks : ℕ → ℕ → Chunking → Chunking
switch_chunks target_chunk_size file_size st =
    if ltb target_chunk_size (5 * st.one_chunk_size)
      && ltb target_chunk_size (st.one_chunk_size + file_size)
    then record st {
      chunks = st.chunks ++ st.one_chunk_files ∷ [];
      one_chunk_size = 0;
      one_chunk_files = st.entered_folders;
    }
    else st

unfoldable pub enter_folder : BackupFile → Operation → Chunking → Chunking
enter_folder file enter st = record st { entered_folders = st.entered_folders ++ file ∷ [] }
enter_folder file add st = st
enter_folder file leave st = st

abbrev pub count_file : BackupFile → ℕ → Chunking → Chunking
count_file file file_size st = record st {
  total_file_count = st.total_file_count + 1;
  one_chunk_size = st.one_chunk_size + file_size;
  one_chunk_files = st.one_chunk_files ++ file ∷ [];
}

unfoldable pub place_file : ℕ → BackupFile → Operation → Chunking → ℕ → Chunking
unfolding switch_chunks enter_folder
place_file target_chunk_size file operation st file_size =
    count_file file file_size
      (enter_folder file operation (switch_chunks target_chunk_size file_size st))

abbrev pub nothing_placed : Chunking
nothing_placed = record {
  total_file_count = 0;
  one_chunk_size = 0;
  one_chunk_files = [];
  chunks = [];
  entered_folders = [];
}

module _ (getsize : Text → Result ℕ) (target_chunk_size : ℕ) where
  unfoldable pub handle_file : BackupFile → Operation → Chunking → Result Chunking
  unfolding place_file pop
  handle_file file leave st = do
    entered_folders ← pop st.entered_folders
    ok (record st { entered_folders = entered_folders })
  handle_file file operation st = do
    file_size ← getsize file.local_path
    ok (place_file target_chunk_size file operation st file_size)

  unfoldable pub split_items : List Item → Chunking → Result Chunking
  unfolding handle_file
  split_items [] st = ok st
  split_items (item ∷ items) st = do
    next ← handle_file item.file item.operation st
    split_items items next

  unfoldable pub find_and_split_files_to_backup :
      Text → Contents → List Tablespace → Result (ℕ × List (List BackupFile))
  unfolding split_items find_files_to_backup
  find_and_split_files_to_backup pgdata contents tablespaces = do
    items ← find_files_to_backup pgdata contents tablespaces
    st ← split_items items nothing_placed
    ok (st.total_file_count, st.chunks ++ st.one_chunk_files ∷ [])
