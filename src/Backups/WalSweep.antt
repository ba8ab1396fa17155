-- ===== src/Backups/WalSweep.antt =====
-- `delete_remote_wal_before` of pghoard/pghoard.py: the loop that deletes WAL segments backwards
-- from the first one that is still needed. The object store is rohmu's: a type of states and its
-- `delete_key` are parameters. `except Exception` is `failed`: the loop goes on.
pub mod Safety
pub mod Ending
use pghoard.Base.{
  Bool, Error, List, Option, Result, Text, [], codes, false, if◌then◌else◌, leb, none, not, ok,
  path_join, raise, some, suc, true, type_error, zero, ℕ, ◌*◌, ◌++◌, ◌+◌, ◌-◌, ◌/◌, ◌^◌, ◌||◌, ◌∷◌,
}
use pghoard.Wal.Lsn.{Lsn, from_walfile_name, walfile_name, previous_walfile_start_lsn, at_timeline}

-- How a call of `storage.delete_key` ends.
pub data Deletion : Type 0 where
  deleted not_found failed : Deletion

-- How the loop ends, with the keys tried until then, in order, as LSNs; and the store left behind. A
-- `raised` comes from `walfile_name`, outside the loop's handlers.
pub data Sweep (S : Type 0) : Type 0 where
  finished : List Lsn → S → Sweep S
  raised : List Lsn → Error → Sweep S
  out_of_fuel : List Lsn → Sweep S

module _ {S : Type 0} where
  abbrev pub tried : Lsn → Sweep S → Sweep S
  tried l (finished ls s) = finished (l ∷ ls) s
  tried l (raised ls e) = raised (l ∷ ls) e
  tried l (out_of_fuel ls) = out_of_fuel (l ∷ ls)

module _ {S : Type 0} where
  abbrev pub tried_before : List Lsn → Sweep S → Sweep S
  tried_before ls (finished ms s) = finished (ls ++ ms) s
  tried_before ls (raised ms e) = raised (ls ++ ms) e
  tried_before ls (out_of_fuel ms) = out_of_fuel (ls ++ ms)

  -- One piece of work after another; an exception ends both.
  abbrev pub and_then : Sweep S → (S → Sweep S) → Sweep S
  and_then (finished ls s) next = tried_before ls (next s)
  and_then (raised ls e) next = raised ls e
  and_then (out_of_fuel ls) next = out_of_fuel ls

  abbrev pub of_result : Result S → Sweep S
  of_result (ok s) = finished [] s
  of_result (raise e) = raised [] e

-- `os.path.join(self._get_site_prefix(site), "xlog", lsn.walfile_name)`
unfoldable pub wal_path : Text → Text → Text
wal_path prefix name = path_join (path_join prefix (codes "xlog")) name

module _ {S : Type 0} (delete_key : S → Text → Deletion × S) (prefix : Text) where
  -- The three ways on after a deletion; `next` is the loop.
  unfoldable pub after_deletion :
      (S → Lsn → Bool → Sweep S) → Lsn → Bool → ℕ → Deletion × S → Sweep S
  after_deletion next l valid_timeline t (deleted, s) = tried l (next s l true)
  after_deletion next l valid_timeline t (not_found, s) =
      if not valid_timeline || leb t 1
      then finished (l ∷ []) s
      else tried l (next s (at_timeline l (t - 1)) false)
  after_deletion next l valid_timeline t (failed, s) = tried l (next s l valid_timeline)

  -- `lsn.timeline_id` is compared with 1 and decremented only behind a handler.
  unfoldable pub at_key : (S → Lsn → Bool → Sweep S) → S → Lsn → Bool → Option ℕ → Text → Sweep S
  unfolding after_deletion wal_path
  at_key next s l valid_timeline none name = raised [] type_error
  at_key next s l valid_timeline (some t) name =
      after_deletion next l valid_timeline t (delete_key s (wal_path prefix name))

  unfoldable pub at_name : (S → Lsn → Bool → Sweep S) → S → Lsn → Bool → Result Text → Sweep S
  unfolding at_key
  at_name next s l valid_timeline (raise e) = raised [] e
  at_name next s l valid_timeline (ok name) = at_key next s l valid_timeline l.timeline_id name

  -- The body behind the choice of the segment.
  unfoldable pub attempt : (S → Lsn → Bool → Sweep S) → S → Lsn → Bool → Sweep S
  unfolding at_name
  attempt next s l valid_timeline = at_name next s l valid_timeline (walfile_name l)

  -- `lsn = lsn.previous_walfile_start_lsn`, and the `break` at the first segment
  unfoldable pub step_back : (S → Lsn → Bool → Sweep S) → S → Option Lsn → Sweep S
  unfolding attempt
  step_back next s none = finished [] s
  step_back next s (some p) = attempt next s p true

  -- `while True`
  unfoldable pub sweep : ℕ → S → Lsn → Bool → Sweep S
  unfolding attempt step_back
  sweep zero s l valid_timeline = out_of_fuel []
  sweep (suc fuel) s l true = step_back (sweep fuel) s (previous_walfile_start_lsn l)
  sweep (suc fuel) s l false = attempt (sweep fuel) s l false

  unfoldable pub sweep_from : S → Result Lsn → Sweep S
  unfolding sweep
  sweep_from s (raise e) = raised [] e
  sweep_from s (ok l) = sweep (2 * (l.lsn / 2 ^ 24) + 1) s l true

  -- With fuel for two rounds at each segment before the first needed one.
  unfoldable pub delete_remote_wal_before : Text → Option ℕ → S → Sweep S
  unfolding sweep_from
  delete_remote_wal_before wal_segment pg_version s =
      sweep_from s (from_walfile_name wal_segment pg_version)
