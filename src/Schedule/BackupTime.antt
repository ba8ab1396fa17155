-- ===== src/Schedule/BackupTime.antt =====
-- `get_normalized_backup_time` and `patch_basebackup_info` of pghoard/pghoard.py. Times are
-- microseconds in UTC; the interval is a whole number of hours. The hour and the minute are taken
-- to be in the ranges that `datetime.replace` accepts, and `now` at least a day after the epoch.
use pghoard.Base.{
  Bool-cases, Option, arith, if◌then◌else◌, inl, inr, ltb, ltb→lt, none, refl, some, suc, true,
  zero, ℕ, ◌%◌, ◌&&◌, ◌*◌, ◌+◌, ◌-◌, ◌/◌, ◌<◌, ◌==◌, ◌||◌, ◌≡◌, ◌≤◌, ◌⊎◌,
}
use pghoard.Backups.Info.{scheduled, StoredMetadata, Metadata}
use pghoard.Backups.Retention.{hour, day}

abbrev pub minute : ℕ
minute = 60 * 1000000

-- The keys of a site's configuration that decide when a backup is taken.
pub record ScheduleConfig : Type 0 where
  pub basebackup_hour : Option ℕ
  pub basebackup_minute : Option ℕ
  pub basebackup_interval_hours : Option ℕ

-- `while normalized + interval < now`, with fuel
unfoldable pub advance : ℕ → ℕ → ℕ → ℕ → Option ℕ
advance zero interval now normalized = none
advance (suc fuel) interval now normalized =
    let rest = advance fuel interval now (normalized + interval) in
    if ltb (normalized + interval) now then rest else some normalized

-- `normalized.replace(hour=..., minute=..., second=0, microsecond=0)`
unfoldable pub at_time_of_day : ℕ → ℕ → ℕ → ℕ
at_time_of_day t h m = t / day * day + h * hour + m * minute

-- The backup time of the day of `now`, or of the day before if that is still to come.
unfoldable pub first_backup_time : ℕ → ℕ → ℕ → ℕ
unfolding at_time_of_day
first_backup_time now h m =
    let now_hour = now / hour % 24 in
    let now_minute = now / minute % 60 in
    if ltb now_hour h || (now_hour == h && ltb now_minute m)
    then at_time_of_day (now - day) h m
    else at_time_of_day now h m

-- A day holds 24 of the shortest intervals, so 25 rounds are enough where the interval is positive.
unfoldable pub normalized_time : ℕ → ℕ → ℕ → ℕ → Option ℕ
unfolding first_backup_time advance
normalized_time now h m interval = advance 25 (interval * hour) now (first_backup_time now h m)

unfoldable pub scheduled_at : ℕ → Option ℕ → Option ℕ → Option ℕ → Option ℕ
unfolding normalized_time
scheduled_at now (some h) (some m) (some interval) = normalized_time now h m interval
scheduled_at now _ _ _ = none

-- `none` stands for Python's None and, with an interval of 0, for a loop that does not end.
unfoldable pub get_normalized_backup_time : ScheduleConfig → ℕ → Option ℕ
unfolding scheduled_at
get_normalized_backup_time c now =
    scheduled_at now c.basebackup_hour c.basebackup_minute c.basebackup_interval_hours

abbrev pub get_or {ℓ} : {A : Type ℓ} → Option A → A → A
get_or none d = d
get_or (some a) d = a

-- The fields that old backups lack get their best guesses.
unfoldable pub patch_basebackup_info : ScheduleConfig → StoredMetadata → Option ℕ → Metadata
unfolding get_normalized_backup_time
patch_basebackup_info c m preserve_until = record {
  start_time = m.start_time;
  backup_decision_time = get_or m.backup_decision_time m.start_time;
  backup_reason = get_or m.backup_reason scheduled;
  normalized_backup_time =
      get_or m.normalized_backup_time (get_normalized_backup_time c m.start_time);
  start_wal_segment = m.start_wal_segment;
  pg_version = m.pg_version;
  format = m.format;
  preserve_until = preserve_until;
}

-- The first time lies at most a day back.
first_backup_time_bounds :
    (now h m : ℕ)
    → h < 24
    → m < 60
    → day ≤ now
    → (first_backup_time now h m ≤ now) × (now < first_backup_time now h m + day)
unfolding first_backup_time
first_backup_time_bounds now h m hh hm hn = (ground arith, ground arith)

advance_lem :
    (fuel interval now start : ℕ)
    → 0 < interval
    → start ≤ now
    → now ≤ start + fuel * interval
    → 0 < fuel
    → (n : ℕ) × (advance fuel interval now start ≡ some n)
      × (start ≤ n)
      × (n ≤ now)
      × (now ≤ n + interval)
      × ((n ≡ start) ⊎ (n < now))
      × (k : ℕ) × (n ≡ start + k * interval)
unfolding advance
advance_lem zero interval now start hp le room pf = absurd (omega arith)
advance_lem (suc fuel) interval now start hp le room pf =
    elim (Bool-cases (ltb (start + interval) now)) [
      | inl go ↦
          let behind = ltb→lt (start + interval) now go in
          let some_left : 0 < fuel = grind arith in
          let room' : now ≤ start + interval + fuel * interval = grind arith in
          let (n, found, lo, hi, near, last, k, steps) =
            advance_lem fuel interval now (start + interval) hp (omega arith) room' some_left in
          let earlier : n < now = elim last [ inl e ↦ omega arith | inr l ↦ l ] in
          (n, rw go found, omega arith, hi, near, inr earlier, suc k, grind (arith, steps))
      | inr done ↦ (start, rw done refl, omega arith, le, ground arith, inl refl, 0, omega arith)
    ]

-- The scheduled time that a moment counts for: with an hour and a minute of the day, a positive
-- interval and a moment at least a day after the epoch, it exists, is at most one interval before
-- the moment, and is a whole number of intervals after the first time, that time of day on the same
-- day or the day before. It is before the moment, unless it is the first time: where a moment is
-- itself a later scheduled time, it counts for the one before.
pub get_normalized_backup_time_lem :
    (c : ScheduleConfig) (now h m interval : ℕ)
    → c.basebackup_hour ≡ some h
    → c.basebackup_minute ≡ some m
    → c.basebackup_interval_hours ≡ some interval
    → h < 24
    → m < 60
    → 0 < interval
    → day ≤ now
    → (n : ℕ) × (get_normalized_backup_time c now ≡ some n)
      × (n ≤ now)
      × (now ≤ n + interval * hour)
      × ((n ≡ first_backup_time now h m) ⊎ (n < now))
      × (k : ℕ) × (n ≡ first_backup_time now h m + k * (interval * hour))
unfolding get_normalized_backup_time normalized_time
get_normalized_backup_time_lem c now h m interval eh em ei hh hm hi hn =
    let (before, after) = first_backup_time_bounds now h m hh hm hn in
    let room : now ≤ first_backup_time now h m + 25 * (interval * hour) = omega arith in
    let (n, found, lo, hi', near, last, k, steps) =
      advance_lem 25 (interval * hour) now (first_backup_time now h m) (omega arith) before room
        (omega arith) in
    (n, rw (eh, em, ei) found, hi', near, last, k, steps)

-- With an interval of zero hours the loop never ends once the time of day has passed: no number of
-- rounds is enough.
pub advance_zero : (fuel now start : ℕ) → start < now → advance fuel (0 * hour) now start ≡ none
unfolding advance
advance_zero zero now start h = refl
advance_zero (suc fuel) now start h =
    let same : start + 0 ≡ start = omega arith in
    let go : ltb start now ≡ true = ground arith in rw (same, go) (advance_zero fuel now start h)
