-- ===== src/Cleanup.antt =====
-- `archive_cleanup` of pghoard/archive_cleanup.py: the deletion of the WAL segments before the first
-- one that any base backup in the store needs. The listings of the store and `delete_key` are
-- parameters.
pub mod Required
use pghoard.Base.{
  Bool, List, Option, Result, Text, [], false, if◌then◌else◌, key_error, none, ok, raise, some,
  text_lt, true, value_error, ℕ, ◌++◌, ◌+◌, ◌==◌, ◌>>=◌, ◌>>◌, ◌||◌, ◌∷◌,
}
use pghoard.Backups.WalSweep.{Deletion, deleted, not_found, failed}

-- `bb["metadata"]["start-wal-segment"] for bb in basebackups`
unfoldable pub start_segments : List (Option Text) → Result (List Text)
start_segments [] = ok []
start_segments (none ∷ bbs) = raise key_error
start_segments (some segment ∷ bbs) = do segments ← start_segments bbs; ok (segment ∷ segments)

-- `min`, which keeps the first of several.
unfoldable pub smallest : Text → List Text → Text
smallest best [] = best
smallest best (t ∷ ts) = smallest (if text_lt t best then t else best) ts

unfoldable pub min_text : List Text → Result Text
unfolding smallest
min_text [] = raise value_error
min_text (t ∷ ts) = ok (smallest t ts)

unfoldable pub first_required_wal : List (Option Text) → Result Text
unfolding start_segments min_text
first_required_wal basebackups = do segments ← start_segments basebackups; min_text segments

-- `os.path.basename`: what follows the last slash.
has_slash : Text → Bool
has_slash [] = false
has_slash (c ∷ s) = c == b'/' || has_slash s

unfoldable pub basename : Text → Text
unfolding has_slash
basename [] = []
basename (c ∷ s) = let rest = basename s in if c == b'/' || has_slash s then rest else c ∷ s

-- The keys that were tried, the bytes of the orphan segments, whether an exception has come out,
-- and the store.
pub record Cleanup (S : Type 0) : Type 0 where
  pub tried : List Text
  pub total_bytes : ℕ
  pub is_failed : Bool
  pub store : S

unfoldable pub size_of : Option ℕ → ℕ
size_of none = 0
size_of (some n) = n

module _ {S : Type 0} where
  abbrev pub with_orphan : List Text → Option ℕ → Cleanup S → Cleanup S
  with_orphan keys size r = record r {
    tried = keys ++ r.tried;
    total_bytes = size_of size + r.total_bytes;
  }

  -- After a deletion; `next` is the rest of the listing.
  unfoldable pub after_delete : Text → Option ℕ → (S → Cleanup S) → Deletion × S → Cleanup S
  unfolding size_of
  after_delete name size next (failed, s) = record {
    tried = name ∷ [];
    total_bytes = size_of size;
    is_failed = true;
    store = s;
  }
  after_delete name size next (_, s) = with_orphan (name ∷ []) size (next s)

module _ {S : Type 0} (delete_key : S → Text → Deletion × S) (dry_run : Bool) (first : Text) where
  unfoldable pub orphan : Text → Option ℕ → (S → Cleanup S) → S → Cleanup S
  unfolding after_delete size_of
  orphan name size next s =
      if dry_run
      then with_orphan [] size (next s)
      else after_delete name size next (delete_key s name)

  -- The loop over the objects, each a name and perhaps a size.
  unfoldable pub clean : List (Text × Option ℕ) → S → Cleanup S
  unfolding orphan basename
  clean [] s = record { tried = []; total_bytes = 0; is_failed = false; store = s }
  clean ((name, size) ∷ objects) s =
      if text_lt (basename name) first then orphan name size (clean objects) s else clean objects s

module _ {S : Type 0} (delete_key : S → Text → Deletion × S) where
  unfoldable pub archive_cleanup :
      Bool → List (Option Text) → List (Text × Option ℕ) → S → Result (Cleanup S)
  unfolding clean first_required_wal
  archive_cleanup dry_run basebackups objects s = do
    first ← first_required_wal basebackups
    ok (clean delete_key dry_run first objects s)
