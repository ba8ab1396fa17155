-- ===== src/Restore/Unpack.antt =====
-- How `ChunkFetcher` of pghoard/restore.py runs tar: `_build_tar_args`, and the end of
-- `_fetch_and_extract_one_backup`.
pub mod Transform
use pghoard.Base.{
  Bool, List, Option, Result, Text, [], codes, elem, if◌then◌else◌, ok, other_error, raise, some, ℕ,
  ◌++◌, ◌==◌, ◌∷◌,
}

-- `BaseBackupFormat` of pghoard/common.py
abbrev pub format_v1 : Text
format_v1 = codes "pghoard-bb-v1"

abbrev pub format_v2 : Text
format_v2 = codes "pghoard-bb-v2"

abbrev pub format_delta_v1 : Text
format_delta_v1 = codes "pghoard-delta-v1"

abbrev pub format_delta_v2 : Text
format_delta_v2 = codes "pghoard-delta-v2"

-- `text.replace` of one character
unfoldable pub replace_char : ℕ → Text → Text → Text
replace_char c new [] = []
replace_char c new (d ∷ s) =
    let rest = replace_char c new s in if d == c then new ++ rest else d ∷ rest

-- The statement that moves the files of a tablespace to its path.
unfoldable pub tablespace_statement : Text → Text → Text
unfolding replace_char
tablespace_statement tsname path =
    codes "s,^tablespaces/"
    ++ (replace_char b',' (codes "\\,") (replace_char 92 (codes "\\\\") tsname)
        ++ (codes "/\\(.*\\)$," ++ (replace_char b',' (codes "\\,") path ++ codes "/\\1,")))

unfoldable pub tablespace_args : List (Text × Text) → List Text
unfolding tablespace_statement
tablespace_args [] = []
tablespace_args ((tsname, path) ∷ tablespaces) =
    codes "--transform" ∷ tablespace_statement tsname path ∷ tablespace_args tablespaces

abbrev pub is_delta : Text → Bool
is_delta file_format = elem file_format (format_delta_v1 ∷ format_delta_v2 ∷ [])

unfoldable pub extra_args : Text → List (Text × Text) → List Text
unfolding tablespace_args elem
extra_args file_format tablespaces =
    codes "--exclude"
      ∷ codes ".pghoard_tar_metadata.json"
      ∷ codes "--transform"
      ∷ codes "s,^pgdata/,,"
      ∷ (if is_delta file_format then codes "--exclude" ∷ codes ".manifest.json" ∷ [] else [])
    ++ (elim tablespaces [ [] ↦ [] | _ ∷ _ ↦ codes "--absolute-names" ∷ [] ])
    ++ tablespace_args tablespaces

-- `_build_tar_args`: a backup of no format, of a known one, or of an unknown one, which is an error.
unfoldable pub build_tar_args : Text → Text → Option Text → List (Text × Text) → Result (List Text)
unfolding extra_args elem
build_tar_args tar_executable pgdata (some (c ∷ s)) tablespaces =
    if elem (c ∷ s) (format_v1 ∷ format_v2 ∷ format_delta_v1 ∷ format_delta_v2 ∷ [])
    then ok (
        (tar_executable ∷ codes "-xf" ∷ codes "-" ∷ codes "-C" ∷ pgdata ∷ [])
        ++ extra_args (c ∷ s) tablespaces)
    else raise other_error
build_tar_args tar_executable pgdata _ tablespaces =
    ok (tar_executable ∷ codes "-xf" ∷ codes "-" ∷ codes "-C" ∷ pgdata ∷ [])
