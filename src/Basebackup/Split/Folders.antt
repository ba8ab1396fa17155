-- ===== src/Basebackup/Split/Folders.antt =====
-- `Split.antt`: where the folders of the files of a chunk stand.
use pghoard.Base.{
  All, Bool, List, Text, [], ap, codes, false, inl, inr, path_join, refl, sym, ◌++◌, ◌∙◌, ◌∷◌, ◌≡◌,
  ◌≢◌, ◌⊎◌,
}
use mathlib.Core.Path.{subst}
use mathlib.Core.List.{append_assoc, append-nil}
use pghoard.Basebackup.Files.{leave, BackupFile, Item, Tablespace, enclose}
use pghoard.Basebackup.Files.Forest.{
  Forest, nothing, one_file, one_folder, Spaces, no_spaces, one_space, IsNamedWalk,
}
use pghoard.Basebackup.Split.{without_last}
use pghoard.Basebackup.Split.Groups.{
  Placed, all_but_last-append, after_item, placed_item, placed_files,
}

pub data Among (d : BackupFile) : List BackupFile → Type 0 where
  here : {files : List BackupFile} → Among d (d ∷ files)
  there : {file : BackupFile} {files : List BackupFile} → Among d files → Among d (file ∷ files)

pub Among-append :
    {d : BackupFile} {xs : List BackupFile} (ys : List BackupFile) → Among d xs → Among d (xs ++ ys)
Among-append ys here = here
Among-append ys (there m) = there (Among-append ys m)

Among-last : (d : BackupFile) (xs : List BackupFile) → Among d (xs ++ d ∷ [])
Among-last d [] = here
Among-last d (x ∷ xs) = there (Among-last d xs)

pub Among-snoc :
    {d : BackupFile} (xs ys : List BackupFile) (f : BackupFile)
    → ((e : BackupFile) → Among e xs → Among e ys)
    → Among d (xs ++ f ∷ [])
    → Among d (ys ++ f ∷ [])
Among-snoc [] ys f s here = Among-last f ys
Among-snoc [] ys f s (there m) = elim m [ ]
Among-snoc (x ∷ xs) ys f s here = Among-append (f ∷ []) (s x here)
Among-snoc (x ∷ xs) ys f s (there m) = Among-snoc xs ys f (λ e k. s e (there k)) m

pub Among-without_last :
    {d : BackupFile} (x : BackupFile) (xs : List BackupFile)
    → Among d (without_last x xs)
    → Among d (x ∷ xs)
unfolding without_last
Among-without_last x [] m = elim m [ ]
Among-without_last x (y ∷ xs) here = here
Among-without_last x (y ∷ xs) (there m) = there (Among-without_last y xs m)

abbrev pub NoSlash : Text → Type 0
NoSlash fn = All (λ c. c ≢ b'/') fn

-- A file directly in the data directory or among the tablespaces, or directly in a folder that is
-- known: what its path has behind that of the folder is a name without a slash.
unfoldable pub HasFolder : List BackupFile → BackupFile → Type 0
HasFolder known file =
    ((fn : Text) × NoSlash fn × (file.archive_path ≡ path_join (codes "pgdata") fn))
    ⊎ (((fn : Text) × NoSlash fn × (file.archive_path ≡ path_join (codes "tablespaces") fn))
        ⊎ ((folder : BackupFile) × (fn : Text) × Among folder known
            × NoSlash fn
            × (file.archive_path ≡ path_join folder.archive_path fn)))

-- Every file comes after its folder.
unfoldable pub StandsAlone : List BackupFile → List BackupFile → Type 0
StandsAlone known [] = Unit
StandsAlone known (file ∷ files) = HasFolder known file × StandsAlone (known ++ file ∷ []) files

pub HasFolder-more :
    (xs ys : List BackupFile) (file : BackupFile)
    → ((e : BackupFile) → Among e xs → Among e ys)
    → HasFolder xs file
    → HasFolder ys file
unfolding HasFolder
HasFolder-more xs ys file s (inl h) = inl h
HasFolder-more xs ys file s (inr (inl h)) = inr (inl h)
HasFolder-more xs ys file s (inr (inr (folder, fn, m, n, e))) =
    inr (inr (folder, fn, s folder m, n, e))

pub StandsAlone-append :
    (known xs ys : List BackupFile)
    → StandsAlone known xs
    → StandsAlone (known ++ xs) ys
    → StandsAlone known (xs ++ ys)
unfolding StandsAlone
StandsAlone-append known [] ys h k = subst (λ fs. StandsAlone fs ys) (append-nil known) k
StandsAlone-append known (x ∷ xs) ys h k = (
  h.0,
  StandsAlone-append (known ++ x ∷ []) xs ys h.1
      (subst (λ fs. StandsAlone fs ys) (sym (append_assoc known (x ∷ []) xs)) k),
)

-- The open folders of a file come after theirs, and one of them is the file's.
unfoldable pub IsPlaced : Placed → Type 0
IsPlaced (folders, file) = StandsAlone [] folders × HasFolder folders file

-- A walk of which all that follows is placed.
Places : List BackupFile → List Item → Type 0
Places folders items =
    (rest : List Item)
    → All IsPlaced (placed_files folders rest)
    → All IsPlaced (placed_files folders (items ++ rest))

enclose-Places :
    (folders : List BackupFile) (file : BackupFile) (inner items : List Item)
    → IsPlaced (folders, file)
    → Places (folders ++ file ∷ []) inner
    → Places folders items
    → Places folders (enclose file inner ++ items)
unfolding Places placed_files placed_item after_item
enclose-Places folders file inner items p f g rest h =
    let last : Item = record { file = file; operation = leave } in
    let after_leave =
      subst (λ fs. All IsPlaced (placed_files fs (items ++ rest)))
        (sym (all_but_last-append folders file)) (g rest h) in
    let joined : (inner ++ last ∷ [] ++ items) ++ rest ≡ inner ++ (last ∷ (items ++ rest)) =
      ap (λ walk. walk ++ rest) (append_assoc inner (last ∷ []) items)
      ∙ append_assoc inner (last ∷ items) rest in
    (
      p,
      subst (λ walk. All IsPlaced (placed_files (folders ++ file ∷ []) walk)) (sym joined)
          (f (last ∷ (items ++ rest)) after_leave),
    )

-- What has a folder here, by its path.
Here : List BackupFile → Text → Type 0
Here folders archive_parent =
    (file : BackupFile) (fn : Text)
    → NoSlash fn
    → file.archive_path ≡ path_join archive_parent fn
    → HasFolder folders file

below :
    (folders : List BackupFile) (folder : BackupFile)
    → Here (folders ++ folder ∷ []) folder.archive_path
unfolding Here HasFolder
below folders folder file fn n e = inr (inr (folder, fn, Among-last folder folders, n, e))

Forest-Places :
    {skips : Text → Bool} {archive_parent local_parent : Text} {missing_ok : Bool}
    {items : List Item} (folders : List BackupFile)
    → StandsAlone [] folders
    → Here folders archive_parent
    → Forest NoSlash skips archive_parent local_parent missing_ok items
    → Places folders items
unfolding Places placed_files placed_item after_item IsPlaced Here StandsAlone
Forest-Places folders a h nothing = λ rest r. r
Forest-Places folders a h (one_file fn s n f) =
    λ rest r. ((a, h _ fn n refl), Forest-Places folders a h f rest r)
Forest-Places {archive_parent = archive_parent} {local_parent = local_parent}
      {missing_ok = missing_ok} folders a h
      (one_folder fn {inner = inner} {items = items} s n i f) =
    let has : HasFolder folders record {
      archive_path = path_join archive_parent fn;
      local_path = path_join local_parent fn;
      missing_ok = missing_ok;
    } =
      h _ fn n refl in
    enclose-Places folders _ inner items (a, has)
      (Forest-Places _ (StandsAlone-append [] folders (_ ∷ []) a (has, tt)) (below folders _) i)
      (Forest-Places folders a h f)

Spaces-Places :
    {tablespaces : List Tablespace} {items : List Item}
    → All (λ spc. NoSlash spc.spcname) tablespaces
    → Spaces NoSlash tablespaces items
    → Places [] items
unfolding Places IsPlaced
Spaces-Places ns no_spaces = λ rest r. r
Spaces-Places ns (one_space spc {inner = inner} {items = items} i f) =
    let has : HasFolder [] record {
      archive_path = path_join (codes "tablespaces") spc.spcname;
      local_path = spc.path;
      missing_ok = false;
    } =
      unfold HasFolder in inr (inl (spc.spcname, ns.0, refl)) in
    enclose-Places [] _ inner items (unfold StandsAlone in tt, has)
      (Forest-Places _ (unfold StandsAlone in (has, tt)) (below [] _) i) (Spaces-Places ns.1 f)

pub IsWalk-IsPlaced :
    (pgdata : Text) (tablespaces : List Tablespace) (items : List Item)
    → All (λ spc. NoSlash spc.spcname) tablespaces
    → IsNamedWalk NoSlash pgdata tablespaces items
    → All IsPlaced (placed_files [] items)
unfolding IsNamedWalk Places StandsAlone
IsWalk-IsPlaced pgdata tablespaces items ns (top, spaces, e, f, g) =
    let top_level : Here [] (codes "pgdata") =
      unfold Here HasFolder in λ file fn n e'. inl (fn, n, e') in
    let nothing_follows : All IsPlaced (placed_files [] []) = unfold placed_files in tt in
    let in_spaces =
      subst (λ walk. All IsPlaced (placed_files [] walk)) (append-nil spaces)
        (Spaces-Places ns g [] nothing_follows) in
    subst (λ walk. All IsPlaced (placed_files [] walk)) (sym e)
      (Forest-Places [] tt top_level f spaces in_spaces)
