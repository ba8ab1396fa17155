-- ===== src/Basebackup/Files/Names.antt =====
-- The names in the trees of `Files.antt`.
use pghoard.Base.{All, List, Text, [], ◌∷◌}
use pghoard.Basebackup.Files.{
  Node, regular, directory, special, gone, Contents, unlisted, listed, Entries, no_entries, entry,
  Tablespace,
}

-- Every name in a tree has the property.
unfoldable mutual
  pub NodeNames : (Text → Type 0) → Node → Type 0
  NodeNames P (directory contents) = ContentsNames P contents
  NodeNames P _ = Unit

  pub ContentsNames : (Text → Type 0) → Contents → Type 0
  ContentsNames P unlisted = Unit
  ContentsNames P (listed contents) = EntriesNames P contents

  pub EntriesNames : (Text → Type 0) → Entries → Type 0
  EntriesNames P no_entries = Unit
  EntriesNames P (entry fn node contents) = P fn × NodeNames P node × EntriesNames P contents

-- No condition on the names.
abbrev pub AnyName : Text → Type 0
AnyName fn = Unit

mutual
  unfolding NodeNames

  any_node : (node : Node) → NodeNames AnyName node
  any_node regular = tt
  any_node (directory contents) = any_contents contents
  any_node special = tt
  any_node gone = tt

  pub any_contents : (contents : Contents) → ContentsNames AnyName contents
  any_contents unlisted = tt
  any_contents (listed contents) = any_entries contents

  any_entries : (contents : Entries) → EntriesNames AnyName contents
  any_entries no_entries = tt
  any_entries (entry fn node contents) = (tt, any_node node, any_entries contents)

pub any_spaces :
    (tablespaces : List Tablespace) → All (λ spc. ContentsNames AnyName spc.contents) tablespaces
any_spaces [] = tt
any_spaces (spc ∷ tablespaces) = (any_contents spc.contents, any_spaces tablespaces)
