-- ===== src/Basebackup/Files/Forest.antt =====
-- `Files.antt`: the walk is a forest of files and folders.
use pghoard.Base.{
  >>=-eq-ok, All, Bool, Bool-cases, List, Result, Text, [], ap, codes, combine-eq-ok, false, inl,
  inr, ok, ok-injective, path_join, refl, sym, text_lt, true, ◌++◌, ◌∙◌, ◌∷◌, ◌≡◌,
}
use mathlib.Core.Path.{subst}
use mathlib.Core.List.{append_assoc, append-nil}
use pghoard.Basebackup.Files.{
  add, BackupFile, Item, Node, regular, directory, special, gone, Contents, unlisted, listed,
  Entries, no_entries, entry, went_away, is_skipped, insert_by_name, sort_by_name, yield_all,
  enclose, add_entry, add_directory, walk_entries, is_runtime_file, walk_top, Tablespace,
  walk_tablespaces, find_files_to_backup,
}
use pghoard.Basebackup.Files.Names.{
  NodeNames, ContentsNames, EntriesNames, AnyName, any_contents, any_spaces,
}

-- The entries of a directory: files, and folders that are entered and left around theirs. `skips`
-- says which names are left out, the others are `named`, and a file may be missing if `missing_ok`.
pub data Forest (named : Text → Type 0)
    : (Text → Bool) → Text → Text → Bool → List Item → Type 0 where
  nothing :
      {skips : Text → Bool} {archive_parent local_parent : Text} {missing_ok : Bool}
      → Forest named skips archive_parent local_parent missing_ok []
  one_file :
      {skips : Text → Bool} {archive_parent local_parent : Text} {missing_ok : Bool} (fn : Text)
      {items : List Item}
      → skips fn ≡ false
      → named fn
      → Forest named skips archive_parent local_parent missing_ok items
      → Forest named skips archive_parent local_parent missing_ok (
          record {
            file = record {
              archive_path = path_join archive_parent fn;
              local_path = path_join local_parent fn;
              missing_ok = missing_ok;
            };
            operation = add;
          }
          ∷ items)
  one_folder :
      {skips : Text → Bool} {archive_parent local_parent : Text} {missing_ok : Bool} (fn : Text)
      {inner items : List Item}
      → skips fn ≡ false
      → named fn
      → Forest named is_skipped (path_join archive_parent fn) (path_join local_parent fn) true inner
      → Forest named skips archive_parent local_parent missing_ok items
      → Forest named skips archive_parent local_parent missing_ok (
          enclose
            record {
              archive_path = path_join archive_parent fn;
              local_path = path_join local_parent fn;
              missing_ok = missing_ok;
            }
            inner
          ++ items)

-- What is yielded for a name has the property.
Yields : (List Item → Type 0) → Text × Result (List Item) → Type 0
Yields P walk = (items : List Item) → walk.1 ≡ ok items → P items

module _ (P : List Item → Type 0) where
  insert_by_name-Yields :
      (walk : Text × Result (List Item)) (walks : List (Text × Result (List Item)))
      → Yields P walk
      → All (Yields P) walks
      → All (Yields P) (insert_by_name walk walks)
  unfolding sort_by_name
  insert_by_name-Yields walk [] y ys = (y, tt)
  insert_by_name-Yields walk (other ∷ rest) y ys = elim (Bool-cases (text_lt other.0 walk.0)) [
    | inl e ↦ rw e (ys.0, insert_by_name-Yields walk rest y ys.1)
    | inr e ↦ rw e (y, ys)
  ]

  sort_by_name-Yields :
      (walks : List (Text × Result (List Item)))
      → All (Yields P) walks
      → All (Yields P) (sort_by_name walks)
  unfolding sort_by_name
  sort_by_name-Yields [] ys = tt
  sort_by_name-Yields (walk ∷ walks) ys =
      insert_by_name-Yields walk (sort_by_name walks) ys.0 (sort_by_name-Yields walks ys.1)

module _ {named : Text → Type 0} {skips : Text → Bool} {archive_parent local_parent : Text}
    {missing_ok : Bool} where
  Forest-append :
      {first rest : List Item}
      → Forest named skips archive_parent local_parent missing_ok first
      → Forest named skips archive_parent local_parent missing_ok rest
      → Forest named skips archive_parent local_parent missing_ok (first ++ rest)
  Forest-append nothing g = g
  Forest-append (one_file fn s n f) g = one_file fn s n (Forest-append f g)
  Forest-append {rest = rest} (one_folder fn {inner = inner} {items = items} s n i f) g =
      subst (Forest named skips archive_parent local_parent missing_ok)
        (sym (
          append_assoc
            (enclose
              record {
                archive_path = path_join archive_parent fn;
                local_path = path_join local_parent fn;
                missing_ok = missing_ok;
              }
              inner)
            items rest))
        (one_folder fn s n i (Forest-append f g))

  Forest-ok :
      {items found : List Item}
      → Forest named skips archive_parent local_parent missing_ok items
      → ok items ≡ ok found
      → Forest named skips archive_parent local_parent missing_ok found
  Forest-ok f h =
      subst (Forest named skips archive_parent local_parent missing_ok) (ok-injective h) f

  went_away-Forest :
      (quiet : Bool) {items : List Item}
      → went_away quiet ≡ ok items
      → Forest named skips archive_parent local_parent missing_ok items
  unfolding went_away
  went_away-Forest true h = Forest-ok nothing h
  went_away-Forest false h = cc

  yield_all-Forest :
      (walks : List (Text × Result (List Item))) (items : List Item)
      → All (Yields (Forest named skips archive_parent local_parent missing_ok)) walks
      → yield_all walks ≡ ok items
      → Forest named skips archive_parent local_parent missing_ok items
  unfolding yield_all Yields
  yield_all-Forest [] items ys h = Forest-ok nothing h
  yield_all-Forest (walk ∷ walks) items ys h =
      let (here, rest, e, e', last) =
        combine-eq-ok walk.1 (yield_all walks) (λ xs ys. xs ++ ys) h in
      Forest-ok (Forest-append (ys.0 here e) (yield_all-Forest walks rest ys.1 e')) (ap ok last)

mutual
  unfolding add_entry Yields NodeNames

  add_entry-Forest :
      (named : Text → Type 0) (skips : Text → Bool) (archive_parent local_parent : Text)
      (missing_ok : Bool) (node : Node) (fn : Text) (items : List Item)
      → skips fn ≡ false
      → named fn
      → NodeNames named node
      → add_entry (path_join archive_parent fn) (path_join local_parent fn) missing_ok node
        ≡ ok items
      → Forest named skips archive_parent local_parent missing_ok items
  add_entry-Forest named skips a l missing_ok gone fn items s n ns h = went_away-Forest missing_ok h
  add_entry-Forest named skips a l missing_ok special fn items s n ns h = Forest-ok nothing h
  add_entry-Forest named skips a l missing_ok regular fn items s n ns h =
      Forest-ok (one_file fn s n nothing) h
  add_entry-Forest named skips a l missing_ok (directory contents) fn items s n ns h =
      let file : BackupFile = record {
        archive_path = path_join a fn;
        local_path = path_join l fn;
        missing_ok = missing_ok;
      } in
      let (inner, e, last) =
        >>=-eq-ok (add_directory (path_join a fn) (path_join l fn) true contents)
          (λ found. ok (enclose file found)) h in
      Forest-ok
        (one_folder fn s n
          (add_directory-Forest named (path_join a fn) (path_join l fn) contents true inner ns e)
          nothing)
        (ap ok (append-nil (enclose file inner)) ∙ last)

  add_directory-Forest :
      (named : Text → Type 0) (archive_parent local_parent : Text) (contents : Contents)
      (missing_ok : Bool) (items : List Item)
      → ContentsNames named contents
      → add_directory archive_parent local_parent missing_ok contents ≡ ok items
      → Forest named is_skipped archive_parent local_parent missing_ok items
  add_directory-Forest named a l unlisted missing_ok items ns h = went_away-Forest missing_ok h
  add_directory-Forest named a l (listed contents) missing_ok items ns h =
      let walks = walk_entries a l missing_ok contents in
      yield_all-Forest (sort_by_name walks) items
        (sort_by_name-Yields (Forest named is_skipped a l missing_ok) walks
          (walk_entries-Yields named a l contents missing_ok ns))
        h

  walk_entries-Yields :
      (named : Text → Type 0) (archive_parent local_parent : Text) (contents : Entries)
      (missing_ok : Bool)
      → EntriesNames named contents
      → All
          (Yields (Forest named is_skipped archive_parent local_parent missing_ok))
          (walk_entries archive_parent local_parent missing_ok contents)
  walk_entries-Yields named a l no_entries missing_ok ns = tt
  walk_entries-Yields named a l (entry fn node contents) missing_ok ns =
      elim (Bool-cases (is_skipped fn)) [
        | inl e ↦ rw e (walk_entries-Yields named a l contents missing_ok ns.2)
        | inr e ↦ rw e (
          λ items h. add_entry-Forest named is_skipped a l missing_ok node fn items e ns.0 ns.1 h,
          walk_entries-Yields named a l contents missing_ok ns.2,
        )
      ]

walk_top-Forest :
    (named : Text → Type 0) (pgdata : Text) (contents : Entries) (items : List Item)
    → EntriesNames named contents
    → walk_top pgdata contents ≡ ok items
    → Forest named is_runtime_file (codes "pgdata") pgdata false items
unfolding walk_top NodeNames
walk_top-Forest named pgdata no_entries items ns h = Forest-ok nothing h
walk_top-Forest named pgdata (entry fn node contents) items ns h =
    elim (Bool-cases (is_runtime_file fn)) [
      | inl e ↦ walk_top-Forest named pgdata contents items ns.2 (sym (rw e refl) ∙ h)
      | inr e ↦
          let (here, rest, first, second, last) =
            combine-eq-ok
              (add_entry (path_join (codes "pgdata") fn) (path_join pgdata fn) false node)
              (walk_top pgdata contents) (λ xs ys. xs ++ ys) (sym (rw e refl) ∙ h) in
          Forest-ok
            (Forest-append
              (add_entry-Forest named is_runtime_file (codes "pgdata") pgdata false node fn here e
                ns.0 ns.1 first)
              (walk_top-Forest named pgdata contents rest ns.2 second))
            (ap ok last)
    ]

-- The tablespaces in order, each one a folder that is entered and left.
pub data Spaces (named : Text → Type 0) : List Tablespace → List Item → Type 0 where
  no_spaces : Spaces named [] []
  one_space :
      (spc : Tablespace) {tablespaces : List Tablespace} {inner items : List Item}
      → Forest named is_skipped (path_join (codes "tablespaces") spc.spcname) spc.path false inner
      → Spaces named tablespaces items
      → Spaces named (spc ∷ tablespaces) (
          enclose
            record {
              archive_path = path_join (codes "tablespaces") spc.spcname;
              local_path = spc.path;
              missing_ok = false;
            }
            inner
          ++ items)

walk_tablespaces-Spaces :
    (named : Text → Type 0) (tablespaces : List Tablespace) (items : List Item)
    → All (λ spc. ContentsNames named spc.contents) tablespaces
    → walk_tablespaces tablespaces ≡ ok items
    → Spaces named tablespaces items
unfolding walk_tablespaces
walk_tablespaces-Spaces named [] items ns h = subst (Spaces named []) (ok-injective h) no_spaces
walk_tablespaces-Spaces named (spc ∷ tablespaces) items ns h =
    let file : BackupFile = record {
      archive_path = path_join (codes "tablespaces") spc.spcname;
      local_path = spc.path;
      missing_ok = false;
    } in
    let (inner, rest, first, second, last) =
      combine-eq-ok (add_directory file.archive_path spc.path false spc.contents)
        (walk_tablespaces tablespaces) (λ xs ys. enclose file xs ++ ys) h in
    subst (Spaces named (spc ∷ tablespaces)) last (
      one_space spc
        (add_directory-Forest named file.archive_path spc.path spc.contents false inner ns.0 first)
        (walk_tablespaces-Spaces named tablespaces rest ns.1 second))

-- The walk of a tree whose names have a property.
unfoldable pub IsNamedWalk : (Text → Type 0) → Text → List Tablespace → List Item → Type 0
IsNamedWalk named pgdata tablespaces items =
    (top : List Item) × (spaces : List Item) × (items ≡ top ++ spaces)
    × Forest named is_runtime_file (codes "pgdata") pgdata false top
    × Spaces named tablespaces spaces

pub find_files_to_backup-IsNamedWalk :
    (named : Text → Type 0) (pgdata : Text) (contents : Contents) (tablespaces : List Tablespace)
    (items : List Item)
    → ContentsNames named contents
    → All (λ spc. ContentsNames named spc.contents) tablespaces
    → find_files_to_backup pgdata contents tablespaces ≡ ok items
    → IsNamedWalk named pgdata tablespaces items
unfolding find_files_to_backup IsNamedWalk NodeNames
find_files_to_backup-IsNamedWalk named pgdata unlisted tablespaces items ns ts h = cc
find_files_to_backup-IsNamedWalk named pgdata (listed contents) tablespaces items ns ts h =
    let (top, spaces, first, second, last) =
      combine-eq-ok (walk_top pgdata contents) (walk_tablespaces tablespaces) (λ xs ys. xs ++ ys)
        h in
    (
      top,
      spaces,
      sym last,
      walk_top-Forest named pgdata contents top ns first,
      walk_tablespaces-Spaces named tablespaces spaces ts second,
    )

unfoldable pub IsWalk : Text → List Tablespace → List Item → Type 0
unfolding IsNamedWalk
IsWalk pgdata tablespaces items = IsNamedWalk AnyName pgdata tablespaces items

-- What is found for a backup is a forest below the top level, where no runtime file and no entry of
-- the list of empty directories is taken, and one for each tablespace. In a folder and in a
-- tablespace no pg_control and no temporary file is taken. What is in a folder may go missing, and
-- what is at the top level or directly in a tablespace may not.
pub find_files_to_backup-IsWalk :
    (pgdata : Text) (contents : Contents) (tablespaces : List Tablespace) (items : List Item)
    → find_files_to_backup pgdata contents tablespaces ≡ ok items
    → IsWalk pgdata tablespaces items
unfolding IsWalk
find_files_to_backup-IsWalk pgdata contents tablespaces items h =
    find_files_to_backup-IsNamedWalk AnyName pgdata contents tablespaces items
      (any_contents contents) (any_spaces tablespaces) h
