-- ===== src/Basebackup/Split/Raised.antt =====
-- `Split.antt`: the exceptions of `find_and_split_files_to_backup`.
use pghoard.Base.{
  Bool, Error, List, Result, Text, [], ap, inl, inr, ok, raise, refl, sym, ℕ, ◌++◌, ◌>>=◌, ◌∙◌, ◌∷◌,
  ◌≡◌, ◌⊎◌,
}
use mathlib.Core.Path.{subst}
use pghoard.Basebackup.Files.{
  add, enter, leave, BackupFile, Item, Contents, Tablespace, enclose, find_files_to_backup,
}
use pghoard.Basebackup.Files.Forest.{
  Forest, nothing, one_file, one_folder, Spaces, no_spaces, one_space, find_files_to_backup-IsWalk,
  IsWalk, IsNamedWalk,
}
use pghoard.Basebackup.Split.{
  Chunking, without_last, pop, enter_folder, place_file, nothing_placed, handle_file, split_items,
  find_and_split_files_to_backup,
}
use pghoard.Basebackup.Split.Groups.{
  switch_chunks-entered_folders, all_but_last, all_but_last-append,
}

abbrev result_of : Chunking → ℕ × List (List BackupFile)
result_of st = (st.total_file_count, st.chunks ++ st.one_chunk_files ∷ [])

-- A step that is two steps.
>>=-twice :
    {A B C : Type 0} (r : Result A) (f : A → Result C) (g : A → Result B) (h : B → Result C)
    → ((a : A) → f a ≡ (g a >>= h))
    → (r >>= f) ≡ (r >>= g >>= h)
>>=-twice (ok a) f g h e = e a
>>=-twice (raise error) f g h e = refl

module _ (getsize : Text → Result ℕ) (target_chunk_size : ℕ) where
  -- The loop leaves these folders open, or the size of a file cannot be read.
  Runs : List BackupFile → Result Chunking → Type 0
  Runs folders (ok st) = st.entered_folders ≡ folders
  Runs folders (raise error) = (path : Text) × (getsize path ≡ raise error)

  Runs->>= :
      (before after : List BackupFile) (first : Result Chunking) (next : Chunking → Result Chunking)
      → Runs before first
      → ((st : Chunking) → st.entered_folders ≡ before → Runs after (next st))
      → Runs after (first >>= next)
  unfolding Runs
  Runs->>= before after (ok st) next r f = f st r
  Runs->>= before after (raise error) next r f = r

  split_items-append :
      (xs ys : List Item) (st : Chunking)
      → split_items getsize target_chunk_size (xs ++ ys) st
        ≡ (split_items getsize target_chunk_size xs st >>= split_items getsize target_chunk_size ys)
  unfolding split_items
  split_items-append [] ys st = refl
  split_items-append (x ∷ xs) ys st =
      >>=-twice (handle_file getsize target_chunk_size x.file x.operation st) _ _ _
        (split_items-append xs ys)

  append-Runs :
      (before after : List BackupFile) (xs ys : List Item) (st : Chunking)
      → Runs before (split_items getsize target_chunk_size xs st)
      → ((next : Chunking)
          → next.entered_folders ≡ before
          → Runs after (split_items getsize target_chunk_size ys next))
      → Runs after (split_items getsize target_chunk_size (xs ++ ys) st)
  append-Runs before after xs ys st r f =
      subst (Runs after) (sym (split_items-append xs ys st)) (Runs->>= before after _ _ r f)

  -- A size is read, and the file is placed.
  Runs-place :
      (folders : List BackupFile) (path : Text) (place : ℕ → Chunking)
      → ((n : ℕ) → (place n).entered_folders ≡ folders)
      → Runs folders (getsize path >>= λ file_size. ok (place file_size))
  unfolding Runs
  Runs-place folders path place f = after (getsize path) refl
    where
      after :
          (r : Result ℕ) → getsize path ≡ r → Runs folders (r >>= λ file_size. ok (place file_size))
      after (ok n) e = f n
      after (raise error) e = (path, e)

  add-Runs :
      (file : BackupFile) (st : Chunking)
      → Runs st.entered_folders (handle_file getsize target_chunk_size file add st)
  unfolding handle_file place_file enter_folder
  add-Runs file st =
      Runs-place st.entered_folders file.local_path (place_file target_chunk_size file add st)
        λ n. switch_chunks-entered_folders target_chunk_size n st

  enter-Runs :
      (file : BackupFile) (st : Chunking)
      → Runs (st.entered_folders ++ file ∷ []) (handle_file getsize target_chunk_size file enter st)
  unfolding handle_file place_file enter_folder
  enter-Runs file st =
      Runs-place (st.entered_folders ++ file ∷ []) file.local_path
        (place_file target_chunk_size file enter st)
        λ n.
          ap (λ folders. folders ++ file ∷ [])
            (switch_chunks-entered_folders target_chunk_size n st)

  pop-append : {A : Type 0} (xs : List A) (y : A) → pop (xs ++ y ∷ []) ≡ ok xs
  unfolding pop without_last all_but_last
  pop-append [] y = refl
  pop-append (x ∷ xs) y = ap ok (all_but_last-append (x ∷ xs) y)

  leave-Runs :
      (file : BackupFile) (folders : List BackupFile) (st : Chunking)
      → st.entered_folders ≡ folders ++ file ∷ []
      → Runs folders (handle_file getsize target_chunk_size file leave st)
  unfolding handle_file Runs
  leave-Runs file folders st h = rw h (rw (pop-append folders file) refl)

  leave_only :
      (file : BackupFile) (folders : List BackupFile) (st : Chunking)
      → st.entered_folders ≡ folders ++ file ∷ []
      → Runs folders (
          split_items getsize target_chunk_size (record { file = file; operation = leave } ∷ []) st)
  unfolding split_items Runs
  leave_only file folders st h =
      Runs->>= folders folders _ _ (leave-Runs file folders st h) λ next e. e

  keeps :
      (loop : Chunking → Result Chunking) (st : Chunking) (folders : List BackupFile)
      → st.entered_folders ≡ folders
      → ((next : Chunking) → Runs next.entered_folders (loop next))
      → Runs folders (loop st)
  keeps loop st folders e f = subst (λ fs. Runs fs (loop st)) e (f st)

  -- A folder that is entered and left around a walk of its own.
  enclose-Runs :
      (file : BackupFile) (inner items : List Item) (st : Chunking)
      → ((next : Chunking)
          → Runs next.entered_folders (split_items getsize target_chunk_size inner next))
      → ((next : Chunking)
          → Runs next.entered_folders (split_items getsize target_chunk_size items next))
      → Runs st.entered_folders
          (split_items getsize target_chunk_size (enclose file inner ++ items) st)
  unfolding split_items
  enclose-Runs file inner items st f g =
      let last : List Item = record { file = file; operation = leave } ∷ [] in
      let folders = st.entered_folders in
      Runs->>= (folders ++ file ∷ []) folders _ _ (enter-Runs file st) λ opened e.
        append-Runs folders folders (inner ++ last) items opened
          (append-Runs (folders ++ file ∷ []) folders inner last opened
            (keeps (split_items getsize target_chunk_size inner) opened _ e f)
            (leave_only file folders))
          λ next e'. keeps (split_items getsize target_chunk_size items) next folders e' g

  Forest-Runs :
      {named : Text → Type 0} {skips : Text → Bool} {archive_parent local_parent : Text}
      {missing_ok : Bool} {items : List Item} (st : Chunking)
      → Forest named skips archive_parent local_parent missing_ok items
      → Runs st.entered_folders (split_items getsize target_chunk_size items st)
  unfolding split_items Runs
  Forest-Runs st nothing = refl
  Forest-Runs st (one_file fn {items} s n f) =
      Runs->>= st.entered_folders st.entered_folders _ _ (add-Runs _ st) λ next e.
        keeps (split_items getsize target_chunk_size items) next st.entered_folders e
          (λ later. Forest-Runs later f)
  Forest-Runs st (one_folder fn {inner = inner} {items = items} s n i f) =
      enclose-Runs _ inner items st (λ next. Forest-Runs next i) (λ next. Forest-Runs next f)

  Spaces-Runs :
      {named : Text → Type 0} {tablespaces : List Tablespace} {items : List Item} (st : Chunking)
      → Spaces named tablespaces items
      → Runs st.entered_folders (split_items getsize target_chunk_size items st)
  unfolding split_items Runs
  Spaces-Runs st no_spaces = refl
  Spaces-Runs st (one_space spc {inner = inner} {items = items} i f) =
      enclose-Runs _ inner items st (λ next. Forest-Runs next i) (λ next. Spaces-Runs next f)

  IsWalk-Runs :
      (pgdata : Text) (tablespaces : List Tablespace) (items : List Item)
      → IsWalk pgdata tablespaces items
      → Runs [] (split_items getsize target_chunk_size items nothing_placed)
  unfolding IsWalk IsNamedWalk
  IsWalk-Runs pgdata tablespaces items (top, spaces, e, f, g) =
      subst (λ found. Runs [] (split_items getsize target_chunk_size found nothing_placed)) (sym e)
        (append-Runs [] [] top spaces nothing_placed (Forest-Runs nothing_placed f) λ next e'.
          keeps (split_items getsize target_chunk_size spaces) next [] e'
            λ later. Spaces-Runs later g)

  -- The loop over a walk that was found.
  loop_raises :
      (r : Result Chunking) (error : Error)
      → Runs [] r
      → (r >>= λ st. ok (result_of st)) ≡ raise error
      → (path : Text) × (getsize path ≡ raise error)
  unfolding Runs
  loop_raises (ok st) error h e = cc
  loop_raises (raise other) error (path, h) e = (path, h ∙ cc)

  -- The only exceptions of the split into chunks are those of the scan for files and of the look at
  -- the size of a file: a folder is left only while it is open.
  pub find_and_split_files_to_backup_raises :
      (pgdata : Text) (contents : Contents) (tablespaces : List Tablespace) (error : Error)
      → find_and_split_files_to_backup getsize target_chunk_size pgdata contents tablespaces
        ≡ raise error
      → (find_files_to_backup pgdata contents tablespaces ≡ raise error)
        ⊎ ((path : Text) × (getsize path ≡ raise error))
  unfolding find_and_split_files_to_backup
  find_and_split_files_to_backup_raises pgdata contents tablespaces error h =
      after (find_files_to_backup pgdata contents tablespaces) refl h
    where
      after :
          (r : Result (List Item))
          → find_files_to_backup pgdata contents tablespaces ≡ r
          → (r >>= λ items. split_items getsize target_chunk_size items nothing_placed >>= λ st.
              ok (result_of st))
            ≡ raise error
          → (find_files_to_backup pgdata contents tablespaces ≡ raise error)
            ⊎ ((path : Text) × (getsize path ≡ raise error))
      after (raise other) e k = inl (e ∙ cc)
      after (ok items) e k = inr (
          loop_raises (split_items getsize target_chunk_size items nothing_placed) error
            (IsWalk-Runs pgdata tablespaces items
              (find_files_to_backup-IsWalk pgdata contents tablespaces items e))
            k)
