-- ===== src/Basebackup/Split/Alone.antt =====
-- `Split.antt`: chunks that stand alone.
use pghoard.Base.{All, List, Result, Text, [], map, ok, sym, ℕ, ◌++◌, ◌∷◌, ◌≡◌}
use mathlib.Core.Path.{subst}
use pghoard.Delta.Chunks.{concat}
use pghoard.Basebackup.Files.{Operation, add, enter, leave, BackupFile, Item, Contents, Tablespace}
use pghoard.Basebackup.Files.Forest.{find_files_to_backup-IsNamedWalk}
use pghoard.Basebackup.Files.Names.{ContentsNames}
use pghoard.Basebackup.Split.{find_and_split_files_to_backup}
use pghoard.Basebackup.Split.Groups.{
  Placed, all_but_last, after_item, placed_item, placed_files, files_of, chunk_of,
}
use pghoard.Basebackup.Split.Placing.{IsSplit, find_and_split_files_to_backup-IsSplit}
use pghoard.Basebackup.Split.Folders.{
  Among, Among-append, Among-snoc, Among-without_last, HasFolder-more, StandsAlone,
  StandsAlone-append, IsPlaced, IsWalk-IsPlaced, NoSlash,
}

Within : List BackupFile → List BackupFile → Type 0
Within xs ys = (e : BackupFile) → Among e xs → Among e ys

-- The folders of each file are among those of the one before, and that one.
Linked : List BackupFile → List Placed → Type 0
Linked known [] = Unit
Linked known (placed ∷ group) = Within placed.0 known × Linked (placed.0 ++ placed.1 ∷ []) group

all_but_last-Within : (xs : List BackupFile) → Within (all_but_last xs) xs
unfolding Within all_but_last
all_but_last-Within [] = λ e m. m
all_but_last-Within (x ∷ xs) = λ e m. Among-without_last x xs m

placed_item-Linked :
    (operation : Operation) (file : BackupFile) (folders known : List BackupFile)
    (later : List BackupFile → List Placed)
    → ((fs known : List BackupFile) → Within fs known → Linked known (later fs))
    → Within folders known
    → Linked known (placed_item folders file operation ++ later (after_item folders file operation))
unfolding Linked placed_item after_item Within
placed_item-Linked leave file folders known later f s =
    f (all_but_last folders) known λ e m. s e (all_but_last-Within folders e m)
placed_item-Linked add file folders known later f s =
    (s, f folders (folders ++ file ∷ []) λ e m. Among-append (file ∷ []) m)
placed_item-Linked enter file folders known later f s =
    (s, f (folders ++ file ∷ []) (folders ++ file ∷ []) λ e m. m)

placed_files-Linked :
    (items : List Item) (folders known : List BackupFile)
    → Within folders known
    → Linked known (placed_files folders items)
unfolding Linked placed_files
placed_files-Linked [] folders known s = tt
placed_files-Linked (item ∷ items) folders known s =
    placed_item-Linked item.operation item.file folders known (λ fs. placed_files fs items)
      (placed_files-Linked items) s

files_of-StandsAlone :
    (group : List Placed) (bound known : List BackupFile)
    → Linked bound group
    → Within bound known
    → All IsPlaced group
    → StandsAlone known (files_of group)
unfolding StandsAlone Linked IsPlaced Within
files_of-StandsAlone [] bound known l s h = tt
files_of-StandsAlone ((folders, file) ∷ group) bound known l s h = (
  HasFolder-more folders known file (λ e m. s e (l.0 e m)) h.0.1,
  files_of-StandsAlone group (folders ++ file ∷ []) (known ++ file ∷ []) l.1
      (λ e m. Among-snoc folders known file (λ d k. s d (l.0 d k)) m) h.1,
)

chunk_of-StandsAlone :
    (group : List Placed) (bound : List BackupFile)
    → Linked bound group
    → All IsPlaced group
    → StandsAlone [] (chunk_of group)
unfolding StandsAlone Linked IsPlaced Within chunk_of
chunk_of-StandsAlone [] bound l h = tt
chunk_of-StandsAlone ((folders, file) ∷ group) bound l h =
    StandsAlone-append [] folders (file ∷ files_of group) h.0.0 (
      h.0.1,
      files_of-StandsAlone group (folders ++ file ∷ []) (folders ++ file ∷ []) l.1 (λ e m. m) h.1,
    )

-- Both parts of a list of files.
parts :
    (xs ys : List Placed) (bound : List BackupFile)
    → Linked bound (xs ++ ys)
    → All IsPlaced (xs ++ ys)
    → Linked bound xs
      × All IsPlaced xs
      × ((later : List BackupFile) × Linked later ys)
      × All IsPlaced ys
unfolding Linked
parts [] ys bound l h = (tt, tt, (bound, l), h)
parts (x ∷ xs) ys bound l h =
    let (first, here_placed, rest, placed) = parts xs ys (x.0 ++ x.1 ∷ []) l.1 h.1 in
    ((l.0, first), (h.0, here_placed), rest, placed)

chunks-StandsAlone :
    (groups : List (List Placed)) (bound : List BackupFile)
    → Linked bound (concat groups)
    → All IsPlaced (concat groups)
    → All (StandsAlone []) (map chunk_of groups)
unfolding concat
chunks-StandsAlone [] bound l h = tt
chunks-StandsAlone (group ∷ groups) bound l h =
    let (first, here_placed, (later, rest), placed) = parts group (concat groups) bound l h in
    (
      chunk_of-StandsAlone group bound first here_placed,
      chunks-StandsAlone groups later rest placed,
    )

-- If no name of a file or folder in the data directory and the tablespaces and no name of a tablespace
-- has a slash: in every chunk of a backup each file and folder that is not directly in the data
-- directory or among the tablespaces comes after the folder that it is directly in.
pub find_and_split_files_to_backup-StandsAlone :
    (getsize : Text → Result ℕ) (target_chunk_size : ℕ) (pgdata : Text) (contents : Contents)
    (tablespaces : List Tablespace) (total_file_count : ℕ) (chunks : List (List BackupFile))
    → ContentsNames NoSlash contents
    → All (λ spc. NoSlash spc.spcname) tablespaces
    → All (λ spc. ContentsNames NoSlash spc.contents) tablespaces
    → find_and_split_files_to_backup getsize target_chunk_size pgdata contents tablespaces
      ≡ ok (total_file_count, chunks)
    → All (StandsAlone []) chunks
unfolding IsSplit
find_and_split_files_to_backup-StandsAlone getsize target_chunk_size pgdata contents tablespaces
      total_file_count chunks names space_names spaces h =
    let (items, found, (groups, e, files, count, within)) =
      find_and_split_files_to_backup-IsSplit getsize target_chunk_size pgdata contents tablespaces
        (total_file_count, chunks) h in
    let walk =
      find_files_to_backup-IsNamedWalk NoSlash pgdata contents tablespaces items names spaces
        found in
    let linked : Linked [] (placed_files [] items) =
      placed_files-Linked items [] [] (unfold Within in λ e m. m) in
    subst (All (StandsAlone [])) (sym e) (
      chunks-StandsAlone groups [] (subst (Linked []) (sym files) linked) (
        subst (All IsPlaced) (sym files)
          (IsWalk-IsPlaced pgdata tablespaces items space_names walk)))
