-- ===== src/Schedule/Site.antt =====
-- `handle_site` of pghoard/pghoard.py: one round of the main loop for one site, as far as base
-- backups go. The start of the WAL receiver is not in it. Clocks are microseconds; the round's time
-- stands for each of its readings of `utc_now`.
pub mod Rounds
use pghoard.Base.{
  Bool, List, Option, [], false, if◌then◌else◌, leb, ltb, min, none, not, some, true, ℕ, ◌&&◌, ◌*◌,
  ◌++◌, ◌+◌, ◌==◌, ◌^◌, ◌||◌, ◌∷◌,
}
use pghoard.Backups.Info.{Basebackup, BackupReason, requested, scheduled}
use pghoard.Backups.Retention.{hour}
use pghoard.Schedule.BackupTime.{ScheduleConfig}
use pghoard.Schedule.Details.{NewBackup, get_new_backup_details, is_scheduled}

abbrev pub second : ℕ
second = 1000000

-- `DeltaBaseBackupFailureInfo`
pub record DeltaFailure : Type 0 where
  pub last_failed_time : ℕ
  pub retries : ℕ

-- The base backup of the site and what its callback queue holds: none is running, one is under way,
-- or it has ended with a success or not.
pub data Running : Type 0 where
  idle in_progress : Running
  ended : Bool → Running

pub record SiteConfig : Type 0 where
  pub active : Bool
  pub is_delta_mode : Bool
  pub basebackup_delta_mode_max_retries : ℕ
  pub schedule : ScheduleConfig

-- What a PGHoard object keeps for a site.
pub record SiteState : Type 0 where
  pub running : Running
  pub delta_failure : Option DeltaFailure
  pub time_of_last_backup_check : Option ℕ
  pub is_requested : Bool

pub data Action : Type 0 where
  refresh : Action
  create_basebackup : NewBackup → Action

-- The entry in `delta_backup_failures` after a backup has ended.
unfoldable pub note_result : Bool → Bool → ℕ → Option DeltaFailure → Option DeltaFailure
note_result true is_delta now failure = none
note_result false false now failure = failure
note_result false true now none = some (record { last_failed_time = now; retries = 0 })
note_result false true now (some f) =
    some (record { last_failed_time = now; retries = f.retries + 1 })

-- `min(3 ** (retries + 1), 60 * 60)` seconds
unfoldable pub retry_interval : ℕ → ℕ
retry_interval retries = min (3 ^ (retries + 1)) (60 * 60) * second

-- An interval of 0 hours counts as none.
unfoldable pub interval_passed : Option ℕ → ℕ → DeltaFailure → Bool
interval_passed none now f = false
interval_passed (some hours) now f = not (hours == 0) && ltb (f.last_failed_time + hours * hour) now

-- The checks before a backup is tried again after failures of delta backups.
unfoldable pub may_retry : SiteConfig → ℕ → BackupReason → Option DeltaFailure → Bool
unfolding is_scheduled interval_passed retry_interval
may_retry c now reason none = true
may_retry c now reason (some f) =
    if not (is_scheduled reason)
    then true
    else if interval_passed c.schedule.basebackup_interval_hours now f
    then true
    else if ltb c.basebackup_delta_mode_max_retries f.retries
    then false
    else leb (f.last_failed_time + retry_interval f.retries) now

-- `not last_check_time or (time.monotonic() - last_check_time) > 300`
unfoldable pub check_is_due : ℕ → Option ℕ → Bool
check_is_due monotonic none = true
check_is_due monotonic (some t) = t == 0 || ltb (t + 300 * second) monotonic

-- The first part: the end of a backup, and the cleanup. `none` is the early return while a backup
-- is under way.
unfoldable pub settle_running :
    Running → SiteConfig → ℕ → ℕ → SiteState → Option (SiteState × List Action)
unfolding note_result check_is_due
settle_running in_progress c now monotonic s = none
settle_running (ended success) c now monotonic s = some (
  record s {
    running = idle;
    delta_failure = note_result success c.is_delta_mode now s.delta_failure;
    time_of_last_backup_check = some monotonic;
  },
  refresh ∷ [],
)
settle_running idle c now monotonic s =
    if check_is_due monotonic s.time_of_last_backup_check
    then some (record s { time_of_last_backup_check = some monotonic }, refresh ∷ [])
    else some (s, [])

unfoldable pub settle : SiteConfig → ℕ → ℕ → SiteState → Option (SiteState × List Action)
unfolding settle_running
settle c now monotonic s = settle_running s.running c now monotonic s

-- The second part: the request is taken out of the set by `get_new_backup_details`, whether a
-- backup is then started or not. `maintenance` says that the maintenance mode file is there.
unfoldable pub start :
    SiteConfig → ℕ → Bool → SiteState → Option NewBackup → SiteState × List Action
unfolding may_retry
start c now maintenance s none = (record s { is_requested = false }, [])
start c now maintenance s (some d) =
    if not maintenance && may_retry c now d.backup_reason s.delta_failure
    then (record s { is_requested = false; running = in_progress }, create_basebackup d ∷ [])
    else (record s { is_requested = false }, [])

unfoldable pub go_on :
    SiteConfig
    → ℕ
    → Bool
    → List Basebackup
    → SiteState
    → Option (SiteState × List Action)
    → SiteState × List Action
unfolding start
go_on c now maintenance basebackups s none = (s, [])
go_on c now maintenance basebackups s (some (s', actions)) =
    let details = get_new_backup_details c.schedule now basebackups s'.is_requested in
    let (s'', more) = start c now maintenance s' details in (s'', actions ++ more)

-- `basebackups` is the list that the state holds after a refresh, where there is one.
unfoldable pub handle_site :
    SiteConfig → ℕ → ℕ → Bool → List Basebackup → SiteState → SiteState × List Action
unfolding settle go_on
handle_site c now monotonic maintenance basebackups s =
    if c.active then go_on c now maintenance basebackups s (settle c now monotonic s) else (s, [])
