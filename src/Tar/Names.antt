-- ===== src/Tar/Names.antt =====
-- `_build_target_name` of pghoard/gnutaremu.py: where a member of an archive is extracted to.
-- `fnmatch.fnmatch` (a name and a pattern) and `pattern.sub` (an expression, a replacement and a
-- name) are parameters.
pub mod Inside
use pghoard.Base.{
  Bool, List, Option, Text, [], any, codes, false, if◌then◌else◌, none, not, path_join, some,
  text_eq, true, ℕ, ◌&&◌, ◌==◌, ◌||◌, ◌∷◌,
}

-- `str.split("/")`
add_to_first : ℕ → List Text → List Text
add_to_first c [] = (c ∷ []) ∷ []
add_to_first c (part ∷ parts) = (c ∷ part) ∷ parts

unfoldable pub split : Text → List Text
unfolding add_to_first
split [] = [] ∷ []
split (c ∷ s) = let parts = split s in if c == b'/' then [] ∷ parts else add_to_first c parts

-- `str.startswith`, `str.endswith` and `in`
unfoldable pub starts_with : Text → Text → Bool
starts_with [] s = true
starts_with (p ∷ ps) [] = false
starts_with (p ∷ ps) (c ∷ s) = p == c && starts_with ps s

unfoldable pub contains : Text → Text → Bool
unfolding starts_with
contains part [] = starts_with part []
contains part (c ∷ s) = starts_with part (c ∷ s) || contains part s

unfoldable pub ends_with : Text → Text → Bool
ends_with part [] = text_eq [] part
ends_with part (c ∷ s) = text_eq (c ∷ s) part || ends_with part s

-- `lstrip("/")`
unfoldable pub lstrip : Text → Text
lstrip [] = []
lstrip (c ∷ s) = let rest = lstrip s in if c == b'/' then rest else c ∷ s

pub record TarArguments : Type 0 where
  pub absolute_names : Bool
  pub directory : Option Text
  pub exclude : List Text
  pub substitutions : List (Text × Text)

-- An empty text counts as none.
unfoldable pub non_empty : Text → Bool
non_empty [] = false
non_empty (c ∷ s) = true

-- `if not name.startswith(os.sep) and self.args.directory`
unfoldable pub put_into : Option Text → Text → Text
unfolding non_empty
put_into none name = name
put_into (some directory) name =
    if not (starts_with (codes "/") name) && non_empty directory
    then path_join directory name
    else name

-- The check of a name that must not be absolute.
unfoldable pub checked : Text → Option Text
unfolding contains ends_with
checked name =
    if contains (codes "../") name || ends_with (codes "..") name then none else some name

unfoldable pub relative : Bool → Text → Option Text
unfolding checked lstrip
relative true name = some name
relative false name = checked (lstrip name)

unfoldable pub in_directory : Option Text → Option Text → Option Text
unfolding put_into
in_directory directory none = none
in_directory directory (some name) = some (put_into directory name)

-- An empty name has no target.
unfoldable pub target : TarArguments → Text → Option Text
unfolding relative in_directory
target args [] = none
target args (c ∷ name) = in_directory args.directory (relative args.absolute_names (c ∷ name))

module _ (fnmatch : Text → Text → Bool) (sub : Text → Text → Text → Text) where
  -- A part that is empty does not count.
  unfoldable pub should_exclude : List Text → Text → Bool
  unfolding split non_empty
  should_exclude exclude filename =
      any (λ pattern. any (λ part. fnmatch part pattern && non_empty part) (split filename)) exclude

  unfoldable pub transform_name : List (Text × Text) → Text → Text
  transform_name [] name = name
  transform_name ((pattern, substitution) ∷ rest) name =
      transform_name rest (sub pattern substitution name)

  unfoldable pub build_target_name : TarArguments → Text → Option Text
  unfolding should_exclude transform_name target
  build_target_name args source_name =
      if should_exclude args.exclude source_name
      then none
      else target args (transform_name args.substitutions source_name)
