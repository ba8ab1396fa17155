-- ===== src/Tests/Tar.antt =====
-- Concrete inputs for the theorems about the tar emulator.
use pghoard.Base.{
  Bool, Text, [], codes, false, none, ok, path_join, refl, some, text_eq, ◌++◌, ◌∷◌, ◌≡◌,
}
use pghoard.Tar.Sed.{tokenize_string, reverse_escaping, parse, without_end}
use pghoard.Tar.Names.{TarArguments, build_target_name}
use pghoard.Tar.Names.Inside.{IsInside, build_target_name-IsInside}

parsed : parse (codes "s/^a(/b/") ≡ ok (codes "^a\\(", codes "b")
unfolding parse without_end tokenize_string reverse_escaping
parsed = refl

-- No pattern matches, and the one substitution puts text before the name.
abbrev no_match : Text → Text → Bool
no_match name pattern = false

abbrev prefixed : Text → Text → Text → Text
prefixed pattern substitution name = substitution ++ name

abbrev into_data : TarArguments
into_data = record {
  absolute_names = false;
  directory = some (codes "/data");
  exclude = codes "*.conf" ∷ [];
  substitutions = (codes "^", codes "/") ∷ [];
}

build_target_name-IsInside_example : IsInside (some (codes "/data")) (codes "/data/pg/base")
unfolding build_target_name text_eq path_join
build_target_name-IsInside_example =
    build_target_name-IsInside no_match prefixed into_data (codes "pg/base") refl refl

refused : build_target_name no_match prefixed into_data (codes "pg/../..") ≡ none
unfolding build_target_name text_eq path_join
refused = refl
