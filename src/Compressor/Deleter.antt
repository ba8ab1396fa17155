-- ===== src/Compressor/Deleter.antt =====
-- `WALFileDeleterThread` of pghoard/compressor.py. The dictionary from sites to sets of paths is an
-- association list; a set is kept as a list in ascending order without duplicates, so that
-- `sorted` gives it back. The files of a site lie in one directory, where paths sort as their texts
-- do. `unlink` is a parameter: from the state of the file system and a path to an outcome and the
-- next state.
pub mod Sets
pub mod Latest
use pghoard.Base.{
  Bool, List, Option, Text, [], false, if◌then◌else◌, none, some, text_eq, text_lt, true, ◌∷◌,
}

pub data Unlinked : Type 0 where
  unlinked : Unlinked
  file_not_found : Unlinked
  unlink_failed : Unlinked

-- `set.add`
unfoldable pub insert : Text → List Text → List Text
insert path [] = path ∷ []
insert path (p ∷ ps) =
    let rest = insert path ps in
    if text_lt path p then path ∷ p ∷ ps else if text_eq path p then p ∷ ps else p ∷ rest

-- `defaultdict(set)`: the site is put into the dictionary where it is new.
unfoldable pub add_file : Text → Text → List (Text × List Text) → List (Text × List Text)
unfolding insert
add_file site path [] = (site, path ∷ []) ∷ []
add_file site path ((name, files) ∷ sites) =
    let rest = add_file site path sites in
    if text_eq name site then (name, insert path files) ∷ sites else (name, files) ∷ rest

-- The files that remain in the set of a site, whether an exception has come out, the paths that
-- were tried, and the file system.
pub record Deletions (S : Type 0) : Type 0 where
  pub left : List Text
  pub is_failed : Bool
  pub tried : List Text
  pub files : S

-- The sets of the sites, the paths that were tried at each site that was come to, whether an
-- exception has come out, and the file system.
pub record Sites (S : Type 0) : Type 0 where
  pub to_be_deleted_files : List (Text × List Text)
  pub unlinks : List (Text × List Text)
  pub is_broken : Bool
  pub file_system : S

module _ {S : Type 0} where
  unfoldable pub after_unlink : Text → List Text → Unlinked × S → (S → Deletions S) → Deletions S
  after_unlink path ps (unlink_failed, s) next = record {
    left = path ∷ ps;
    is_failed = true;
    tried = path ∷ [];
    files = s;
  }
  after_unlink path ps (_, s) next = let d = next s in record d { tried = path ∷ d.tried }

  -- The sites after one whose deletions are done; where an exception has come out of them, the
  -- sites after it are left alone.
  unfoldable pub go_on_with :
      Bool → Text → List (Text × List Text) → Deletions S → (S → Sites S) → Sites S
  go_on_with true site rest d next = record {
    to_be_deleted_files = (site, d.left) ∷ rest;
    unlinks = (site, d.tried) ∷ [];
    is_broken = true;
    file_system = d.files;
  }
  go_on_with false site rest d next =
      let more = next d.files in
      record more {
        to_be_deleted_files = (site, d.left) ∷ more.to_be_deleted_files;
        unlinks = (site, d.tried) ∷ more.unlinks;
      }

module _ {S : Type 0} (unlink : S → Text → Unlinked × S) where
  -- `for file in sorted(...)[:-1]`: all but the last.
  unfoldable pub delete_all_but_last : List Text → S → Deletions S
  unfolding after_unlink
  delete_all_but_last [] s = record { left = []; is_failed = false; tried = []; files = s }
  delete_all_but_last (p ∷ []) s = record {
    left = p ∷ [];
    is_failed = false;
    tried = [];
    files = s;
  }
  delete_all_but_last (p ∷ q ∷ ps) s =
      after_unlink p (q ∷ ps) (unlink s p) (delete_all_but_last (q ∷ ps))

  unfoldable pub deleted_unneeded_files : List (Text × List Text) → S → Sites S
  unfolding delete_all_but_last go_on_with
  deleted_unneeded_files [] s = record {
    to_be_deleted_files = [];
    unlinks = [];
    is_broken = false;
    file_system = s;
  }
  deleted_unneeded_files ((site, files) ∷ rest) s =
      let d = delete_all_but_last files s in
      go_on_with d.is_failed site rest d (deleted_unneeded_files rest)

  -- One event of the loop: a path and the name of its site, where a site that is missing stands as
  -- the empty name. The ValueError is caught like any exception, and the loop goes on with the sets
  -- that are left.
  unfoldable pub handle_deletion : Text → Option Text → List (Text × List Text) → S → Sites S
  unfolding add_file deleted_unneeded_files
  handle_deletion site none sites s = record {
    to_be_deleted_files = sites;
    unlinks = [];
    is_broken = true;
    file_system = s;
  }
  handle_deletion [] (some path) sites s = record {
    to_be_deleted_files = sites;
    unlinks = [];
    is_broken = true;
    file_system = s;
  }
  handle_deletion (n ∷ site) (some path) sites s =
      deleted_unneeded_files (add_file (n ∷ site) path sites) s
