-- ===== src/Sync/Missing/Complete.antt =====
-- `Missing.antt`: no missing file is left out.
use pghoard.Base.{Option, Text, ℕ}
use pghoard.Sync.Missing.{Missing}
use pghoard.Sync.Missing.Order.{Has}

module _ (our_hash : Text → Option Text) (normal : Text → Text) (max_hash_checks : Option ℕ)
    (f : Text) where
  -- The file is among those to be archived.
  abbrev Noted : Missing → Type 0
  Noted st = Has f st.need_archival
