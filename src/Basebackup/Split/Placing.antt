-- ===== src/Basebackup/Split/Placing.antt =====
-- `Split.antt`: the loop of `find_and_split_files_to_backup` keeps the groups.
use pghoard.Base.{
  >>=-eq-ok, All, All-append, List, Result, Text, [], ap, arith, inl, length, map, ok, ok-injective,
  refl, sym, ℕ, ◌++◌, ◌>>=◌, ◌∙◌, ◌∷◌, ◌≡◌,
}
use mathlib.Core.Path.{subst}
use mathlib.Core.List.{append_assoc, append-nil, map-append}
use pghoard.Delta.Chunks.{concat, concat-append}
use pghoard.Basebackup.Files.{
  Operation, add, enter, leave, BackupFile, Item, Contents, Tablespace, find_files_to_backup,
}
use pghoard.Basebackup.Split.{
  Chunking, pop, switch_chunks, enter_folder, place_file, nothing_placed, handle_file, split_items,
  find_and_split_files_to_backup,
}
use pghoard.Basebackup.Split.Groups.{
  switch_chunks-entered_folders, group_size, Placed, all_but_last, after_item, placed_item,
  placed_files, chunk_of, known_size, file_size_of, IsWithin, Started, Grouped, place_file-Grouped,
}

module _ (getsize : Text → Result ℕ) (target_chunk_size : ℕ) where
  -- What a step makes of a grouped state.
  Steps : List Placed → Chunking → BackupFile → Operation → Chunking → Type 0
  Steps files st file operation next =
      Grouped getsize target_chunk_size (files ++ placed_item st.entered_folders file operation)
        next
      × (next.entered_folders ≡ after_item st.entered_folders file operation)

  pop-ok : (xs : List BackupFile) {ys : List BackupFile} → pop xs ≡ ok ys → all_but_last xs ≡ ys
  unfolding pop all_but_last
  pop-ok [] h = cc
  pop-ok (x ∷ xs) h = ok-injective h

  Started-pop :
      (group : List Placed) (folders left : List BackupFile)
      → pop folders ≡ ok left
      → Started group folders
      → Started group left
  unfolding Started pop
  Started-pop [] [] left h s = cc
  Started-pop [] (x ∷ folders) left h s = cc
  Started-pop (placed ∷ group) folders left h s = tt

  file_size_of-ok :
      (file : BackupFile) {n : ℕ} → getsize file.local_path ≡ ok n → file_size_of getsize file ≡ n
  unfolding file_size_of known_size
  file_size_of-ok file h = ap known_size h

  place_file-enter :
      (files : List Placed) (st : Chunking) (file : BackupFile)
      → Grouped getsize target_chunk_size files st
      → Steps files st file enter
          (place_file target_chunk_size file enter st (file_size_of getsize file))
  unfolding Steps after_item placed_item place_file enter_folder
  place_file-enter files st file g =
      let same = switch_chunks-entered_folders target_chunk_size (file_size_of getsize file) st in
      let opened : List BackupFile =
        (switch_chunks target_chunk_size (file_size_of getsize file) st).entered_folders
        ++ file ∷ [] in
      (
        place_file-Grouped getsize target_chunk_size files st file opened g,
        ap (λ folders. folders ++ file ∷ []) same,
      )

  place_file-add :
      (files : List Placed) (st : Chunking) (file : BackupFile)
      → Grouped getsize target_chunk_size files st
      → Steps files st file add
          (place_file target_chunk_size file add st (file_size_of getsize file))
  unfolding Steps after_item placed_item place_file enter_folder
  place_file-add files st file g =
      let opened : List BackupFile =
        (switch_chunks target_chunk_size (file_size_of getsize file) st).entered_folders in
      (
        place_file-Grouped getsize target_chunk_size files st file opened g,
        switch_chunks-entered_folders target_chunk_size (file_size_of getsize file) st,
      )

  -- A file whose size is known has been placed.
  with_size :
      (P : Chunking → Type 0) (place : ℕ → Chunking) (file : BackupFile) {next : Chunking}
      → (getsize file.local_path >>= λ file_size. ok (place file_size)) ≡ ok next
      → P (place (file_size_of getsize file))
      → P next
  with_size P place file h here =
      let (n, e, last) =
        >>=-eq-ok (getsize file.local_path) (λ file_size. ok (place file_size)) h in
      subst P (ap place (file_size_of-ok file e) ∙ ok-injective last) here

  handle_file-Steps :
      (files : List Placed) (file : BackupFile) (operation : Operation) (st next : Chunking)
      → handle_file getsize target_chunk_size file operation st ≡ ok next
      → Grouped getsize target_chunk_size files st
      → Steps files st file operation next
  unfolding handle_file
  handle_file-Steps files file leave st next h g =
      let (left, e, last) =
        >>=-eq-ok (pop st.entered_folders) (λ folders. ok (record st { entered_folders = folders }))
          h in
      subst (Steps files st file leave) (ok-injective last) (
        unfold Steps after_item placed_item in
        (
          subst (λ fs. Grouped getsize target_chunk_size fs (record st { entered_folders = left }))
              (sym (append-nil files))
              (record {
                closed = g.closed;
                current = g.current;
                all_files = g.all_files;
                chunks_are = g.chunks_are;
                chunk_is = g.chunk_is;
                started = Started-pop g.current st.entered_folders left e g.started;
                size_is = g.size_is;
                closed_within = g.closed_within;
                current_within = g.current_within;
                count_is = g.count_is;
              }),
          sym (pop-ok st.entered_folders e),
        ))
  handle_file-Steps files file enter st next h g =
      with_size (Steps files st file enter) (place_file target_chunk_size file enter st) file h
        (place_file-enter files st file g)
  handle_file-Steps files file add st next h g =
      with_size (Steps files st file add) (place_file target_chunk_size file add st) file h
        (place_file-add files st file g)

  split_items-Grouped :
      (items : List Item) (files : List Placed) (st last : Chunking)
      → split_items getsize target_chunk_size items st ≡ ok last
      → Grouped getsize target_chunk_size files st
      → Grouped getsize target_chunk_size (files ++ placed_files st.entered_folders items) last
  unfolding split_items placed_files Steps
  split_items-Grouped [] files st last h g =
      subst (λ fs. Grouped getsize target_chunk_size fs last) (sym (append-nil files))
        (subst (Grouped getsize target_chunk_size files) (ok-injective h) g)
  split_items-Grouped (item ∷ items) files st last h g =
      let here : List Placed = placed_item st.entered_folders item.file item.operation in
      let (next, e, rest) =
        >>=-eq-ok (handle_file getsize target_chunk_size item.file item.operation st)
          (split_items getsize target_chunk_size items) h in
      let (step, folders) : Steps files st item.file item.operation next =
        handle_file-Steps files item.file item.operation st next e g in
      subst (λ fs. Grouped getsize target_chunk_size fs last)
        (append_assoc files here (placed_files next.entered_folders items)
          ∙ ap (λ open_folders. files ++ (here ++ placed_files open_folders items)) folders)
        (split_items-Grouped items _ next last rest step)

  nothing_placed-Grouped : Grouped getsize target_chunk_size [] nothing_placed
  nothing_placed-Grouped = record {
    closed = [];
    current = [];
    all_files = unfold concat in refl;
    chunks_are = refl;
    chunk_is = unfold chunk_of in refl;
    started = unfold Started in refl;
    size_is = unfold group_size in refl;
    closed_within = tt;
    current_within = unfold IsWithin group_size in inl (omega arith);
    count_is = refl;
  }

  -- The chunks are those of groups that hold the files in order.
  unfoldable pub IsSplit : List Placed → ℕ × List (List BackupFile) → Type 0
  IsSplit files (total_file_count, chunks) =
      (groups : List (List Placed)) × (chunks ≡ map chunk_of groups)
      × (concat groups ≡ files)
      × (total_file_count ≡ length files)
      × All (IsWithin getsize target_chunk_size) groups

  Grouped-IsSplit :
      (files : List Placed) (st : Chunking)
      → Grouped getsize target_chunk_size files st
      → IsSplit files (st.total_file_count, st.chunks ++ st.one_chunk_files ∷ [])
  unfolding IsSplit
  Grouped-IsSplit files st g = (
    g.closed ++ g.current ∷ [],
    rw g.chunks_are (rw g.chunk_is (sym (map-append chunk_of g.closed (g.current ∷ [])))),
    concat-append g.closed g.current ∙ g.all_files,
    g.count_is,
    All-append (IsWithin getsize target_chunk_size) g.closed (g.current ∷ []) g.closed_within
        (g.current_within, tt),
  )

  -- The chunks of a backup hold every file and folder of the walk once and in its order, except that
  -- a chunk begins with the folders that are open where its first file comes; the count is right; and
  -- the sizes of the files of a chunk sum up to the target at most, or to a fifth of it without the last.
  pub find_and_split_files_to_backup-IsSplit :
      (pgdata : Text) (contents : Contents) (tablespaces : List Tablespace)
      (result : ℕ × List (List BackupFile))
      → find_and_split_files_to_backup getsize target_chunk_size pgdata contents tablespaces
        ≡ ok result
      → (items : List Item) × (find_files_to_backup pgdata contents tablespaces ≡ ok items)
        × IsSplit (placed_files [] items) result
  unfolding find_and_split_files_to_backup
  find_and_split_files_to_backup-IsSplit pgdata contents tablespaces result h =
      let (items, e, later) =
        >>=-eq-ok (find_files_to_backup pgdata contents tablespaces)
          (λ items. split_items getsize target_chunk_size items nothing_placed >>= λ st.
            ok (st.total_file_count, st.chunks ++ st.one_chunk_files ∷ []))
          h in
      let (st, split, last) =
        >>=-eq-ok (split_items getsize target_chunk_size items nothing_placed)
          (λ st. ok (st.total_file_count, st.chunks ++ st.one_chunk_files ∷ [])) later in
      (
        items,
        e,
        subst (IsSplit (placed_files [] items)) (ok-injective last) (
            Grouped-IsSplit _ st
              (split_items-Grouped items [] nothing_placed st split nothing_placed-Grouped)),
      )
