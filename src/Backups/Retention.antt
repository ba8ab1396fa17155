-- ===== src/Backups/Retention.antt =====
-- `determine_backups_to_delete` of pghoard/pghoard.py: which base backups a site no longer keeps.
-- The age of a backup is compared in microseconds, where the source divides down to days in floats.
pub mod Kept
pub mod Choice
use pghoard.Base.{
  Bool, List, Option, [], if◌then◌else◌, length, ltb, none, some, ℕ, ◌*◌, ◌++◌, ◌+◌, ◌==◌, ◌||◌,
  ◌∷◌,
}
use pghoard.Backups.Info.{Basebackup, Metadata, is_basebackup_preserved}

abbrev pub hour : ℕ
hour = 60 * 60 * 1000000

abbrev pub day : ℕ
day = 24 * hour

-- The keys of a site's configuration that decide about retention.
pub record RetentionConfig : Type 0 where
  pub basebackup_count : Option ℕ
  pub basebackup_count_min : ℕ
  pub basebackup_age_days_max : Option ℕ
  pub basebackup_interval_hours : Option ℕ

-- The two results of a loop: the backups popped, and those left in the list.
pub record Selection : Type 0 where
  pub to_delete : List Basebackup
  pub kept : List Basebackup

abbrev pop_first : Basebackup → Selection → Selection
pop_first b s = record s { to_delete = b ∷ s.to_delete }

abbrev stop : List Basebackup → Selection
stop bs = record { to_delete = []; kept = bs }

-- `while len(basebackups) > allowed_basebackup_count`
unfoldable pub drop_excess : ℕ → ℕ → List Basebackup → Selection
drop_excess allowed now [] = stop []
drop_excess allowed now (b ∷ bs) =
    let rest = drop_excess allowed now bs in
    if ltb allowed (length (b ∷ bs))
    then (if is_basebackup_preserved b now then stop (b ∷ bs) else pop_first b rest)
    else stop (b ∷ bs)

-- `backup_age_days > max_age_days`
unfoldable pub is_too_old : ℕ → ℕ → ℕ → Basebackup → Bool
is_too_old max_age_days backup_interval current_time b =
    ltb (b.metadata.start_time + backup_interval + max_age_days * day) current_time

-- `while basebackups and len(basebackups) > min_backups`
unfoldable pub drop_old : (Basebackup → Bool) → ℕ → ℕ → List Basebackup → Selection
drop_old too_old min_backups now [] = stop []
drop_old too_old min_backups now (b ∷ bs) =
    let rest = drop_old too_old min_backups now bs in
    if ltb min_backups (length (b ∷ bs))
    then (if is_basebackup_preserved b now
        then stop (b ∷ bs)
        else if too_old b
        then pop_first b rest
        else stop (b ∷ bs))
    else stop (b ∷ bs)

-- `if max_age_days and min_backups > 0`: a maximum of 0 counts as none.
unfoldable pub age_limit : RetentionConfig → Option ℕ
age_limit c = elim c.basebackup_age_days_max [
  | none ↦ none
  | some days ↦ if days == 0 || c.basebackup_count_min == 0 then none else some days
]

unfoldable pub backup_interval : RetentionConfig → ℕ
backup_interval c = elim c.basebackup_interval_hours [ none ↦ 0 | some hours ↦ hours * hour ]

unfoldable pub allowed_count : RetentionConfig → List Basebackup → ℕ
allowed_count c basebackups = elim c.basebackup_count [ none ↦ length basebackups | some n ↦ n ]

-- The second loop, where there is an age limit.
unfoldable pub by_age : Option ℕ → RetentionConfig → ℕ → ℕ → List Basebackup → Selection
unfolding drop_old backup_interval is_too_old
by_age none c now current_time bs = stop bs
by_age (some days) c now current_time bs =
    drop_old (is_too_old days (backup_interval c) current_time) c.basebackup_count_min now bs

-- `now` is read before the first loop, and `current_time` before the second. The source edits its
-- argument in place: `kept` is what that list holds afterwards.
unfoldable pub determine_backups_to_delete : RetentionConfig → ℕ → ℕ → List Basebackup → Selection
unfolding drop_excess by_age allowed_count age_limit
determine_backups_to_delete c now current_time basebackups =
    let first = drop_excess (allowed_count c basebackups) now basebackups in
    let second = by_age (age_limit c) c now current_time first.kept in
    record { to_delete = first.to_delete ++ second.to_delete; kept = second.kept }
