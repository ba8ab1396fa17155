-- ===== src/Restore/Choice.antt =====
-- `_find_basebackup_for_name`, `_find_nearest_basebackup` and the choice at the start of
-- `_get_basebackup` of pghoard/restore.py. A RestoreError is `other_error`; `parse` is
-- `dates.parse_timestamp` of rohmu, with the times as numbers.
pub mod Nearest
use pghoard.Base.{
  Bool, List, Option, Result, Text, [], codes, if◌then◌else◌, leb, ltb, none, not, ok, or_raise,
  other_error, raise, some, suc, text_eq, text_lt, true, ℕ, ◌>>=◌, ◌∷◌,
}

-- An entry of the listing, with the metadata that the choice reads.
pub record Listed : Type 0 where
  pub name : Text
  pub start_time : Text
  pub end_time : Option Text

unfoldable pub find_basebackup_for_name : Text → List Listed → Result Listed
find_basebackup_for_name name [] = raise other_error
find_basebackup_for_name name (b ∷ bs) =
    let rest = find_basebackup_for_name name bs in if text_eq b.name name then ok b else rest

-- The time of a backup: its end, or its start where the end is unknown.
unfoldable pub backup_ts : (Text → ℕ) → Listed → ℕ
backup_ts parse b = elim b.end_time [ some end ↦ parse end | none ↦ parse b.start_time ]

unfoldable pub is_applicable : (Text → ℕ) → Option ℕ → Listed → Bool
unfolding backup_ts
is_applicable parse none b = true
is_applicable parse (some target) b = not (leb target (backup_ts parse b))

unfoldable pub applicable_basebackups : (Text → ℕ) → Option ℕ → List Listed → List Listed
unfolding is_applicable
applicable_basebackups parse target [] = []
applicable_basebackups parse target (b ∷ bs) =
    let rest = applicable_basebackups parse target bs in
    if is_applicable parse target b then b ∷ rest else rest

-- Python's stable sort by the start time, as insertions from the right.
unfoldable pub insert_by_start : Listed → List Listed → List Listed
insert_by_start b [] = b ∷ []
insert_by_start b (c ∷ cs) =
    let rest = insert_by_start b cs in
    if text_lt c.start_time b.start_time then c ∷ rest else b ∷ c ∷ cs

unfoldable pub sort_by_start : List Listed → List Listed
unfolding insert_by_start
sort_by_start [] = []
sort_by_start (b ∷ bs) = insert_by_start b (sort_by_start bs)

-- `applicable_basebackups[-1]`, where an empty list has raised
unfoldable pub last_basebackup : List Listed → Result Listed
last_basebackup [] = raise other_error
last_basebackup (b ∷ []) = ok b
last_basebackup (b ∷ c ∷ cs) = last_basebackup (c ∷ cs)

unfoldable pub find_nearest_basebackup : (Text → ℕ) → Option ℕ → List Listed → Result Listed
unfolding applicable_basebackups sort_by_start last_basebackup
find_nearest_basebackup parse target basebackups =
    last_basebackup (sort_by_start (applicable_basebackups parse target basebackups))

-- How many of the recovery targets are given.
unfoldable pub targets_given : List (Option Text) → ℕ
targets_given [] = 0
targets_given (none ∷ targets) = targets_given targets
targets_given (some t ∷ targets) = suc (targets_given targets)

-- The three targets of the command line: a name, a time and a transaction.
pub record Targets : Type 0 where
  pub target_name : Option Text
  pub target_time : Option Text
  pub target_xid : Option Text

-- The choice of `_get_basebackup`. An empty time is no time, and a time that cannot be parsed raises.
unfoldable pub select :
    (Text → ℕ) → (Text → Option ℕ) → Option Text → Text → List Listed → Result Listed
unfolding find_nearest_basebackup find_basebackup_for_name
select parse try_parse (some (c ∷ time)) basebackup basebackups =
    or_raise (try_parse (c ∷ time)) other_error >>= λ target.
    find_nearest_basebackup parse (some target) basebackups
select parse try_parse _ basebackup basebackups =
    if text_eq basebackup (codes "latest")
    then find_nearest_basebackup parse none basebackups
    else find_basebackup_for_name basebackup basebackups

unfoldable pub choose_basebackup :
    (Text → ℕ) → (Text → Option ℕ) → Targets → Text → List Listed → Result Listed
unfolding select targets_given
choose_basebackup parse try_parse targets basebackup basebackups =
    if ltb 1 (targets_given (targets.target_name ∷ targets.target_time ∷ targets.target_xid ∷ []))
    then raise other_error
    else select parse try_parse targets.target_time basebackup basebackups
