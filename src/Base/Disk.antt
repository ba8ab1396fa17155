-- ===== src/Base/Disk.antt =====
-- A file system as a function from paths to contents.
use mathlib.Core.Option.{Option, none, some}
use mathlib.Core.List.{◌++◌}
use pghoard.Base.Tests.{if◌then◌else◌}
use pghoard.Base.Strings.{Text, text_eq}

abbrev pub Files : Type 0
Files = Text → Option Text

unfoldable pub set_file : Text → Option Text → Files → Files
set_file path content files p = if text_eq p path then content else files p

-- `open(path, "a")` and a write
unfoldable pub append_file : Text → Text → Files → Files
unfolding set_file
append_file path content files =
    set_file path (some (elim (files path) [ some old ↦ old ++ content | none ↦ content ])) files

unfoldable pub write_file : Text → Text → Files → Files
unfolding set_file
write_file path content files = set_file path (some content) files

-- `os.rename` of a file that exists
unfoldable pub rename : Text → Text → Files → Files
unfolding set_file
rename source target files = set_file target (files source) (set_file source none files)
