-- ===== src/Tests/Schedule.antt =====
-- Concrete inputs for the theorems about the scheduling of base backups.
use pghoard.Base.{
  Bool, List, Option, [], arith, codes, false, none, refl, some, true, ℕ, ◌*◌, ◌+◌, ◌-◌, ◌<◌, ◌∷◌,
  ◌≡◌, ◌≢◌, ◌≤◌, ◌⊎◌,
}
use pghoard.Backups.Info.{Basebackup, scheduled}
use pghoard.Backups.Retention.{hour, day}
use pghoard.Schedule.BackupTime.{
  ScheduleConfig, minute, first_backup_time, get_normalized_backup_time,
  get_normalized_backup_time_lem,
}
use pghoard.Schedule.Details.{NewBackup, get_new_backup_details}
use pghoard.Schedule.Site.{SiteConfig, SiteState, idle, in_progress, handle_site, second}
use pghoard.Schedule.Site.Rounds.{started, handle_site-started}

-- Every two hours from 13:50 on.
abbrev schedule : ScheduleConfig
schedule = record {
  basebackup_hour = some 13;
  basebackup_minute = some 50;
  basebackup_interval_hours = some 2;
}

-- 16:40 on the twentieth day
abbrev now : ℕ
now = 20 * day + 16 * hour + 40 * minute

-- A backup taken at a time for a scheduled time.
abbrev taken : ℕ → Option ℕ → Basebackup
taken t normalized = record {
  name = codes "b";
  metadata = record {
    start_time = t;
    backup_decision_time = t;
    backup_reason = scheduled;
    normalized_backup_time = normalized;
    start_wal_segment = codes "00000001000000000000000A";
    pg_version = some 130000;
    format = none;
    preserve_until = none;
  };
}

abbrev new_backup : NewBackup
new_backup = record {
  backup_decision_time = now;
  backup_reason = scheduled;
  normalized_backup_time = some (20 * day + 15 * hour + 50 * minute);
}

abbrev old_list : List Basebackup
old_list = taken (now - 3 * hour) (some (20 * day + 13 * hour + 50 * minute)) ∷ []

decided : get_new_backup_details schedule now old_list false ≡ some new_backup
unfolding get_new_backup_details get_normalized_backup_time
decided = refl

get_normalized_backup_time_lem_example :
    (n : ℕ) × (get_normalized_backup_time schedule now ≡ some n)
    × (n ≤ now)
    × (now ≤ n + 2 * hour)
    × ((n ≡ first_backup_time now 13 50) ⊎ (n < now))
    × (k : ℕ) × (n ≡ first_backup_time now 13 50 + k * (2 * hour))
get_normalized_backup_time_lem_example =
    get_normalized_backup_time_lem schedule now 13 50 2 refl refl refl (omega arith) (omega arith)
      (omega arith) (omega arith)

abbrev site : SiteConfig
site = record {
  active = true;
  is_delta_mode = true;
  basebackup_delta_mode_max_retries = 10;
  schedule = schedule;
}

abbrev state : SiteState
state = record {
  running = idle;
  delta_failure = some (record { last_failed_time = now - 20 * second; retries = 1 });
  time_of_last_backup_check = none;
  is_requested = false;
}

round : started (handle_site site now 1000 false old_list state).1 ≡ some new_backup
unfolding handle_site get_normalized_backup_time get_new_backup_details
round = refl

handle_site-started_example :
    (site.active ≡ true)
    × (◌≡◌ {A = Bool} false false)
    × (state.running ≢ in_progress)
    × ((handle_site site now 1000 false old_list state).0.running ≡ in_progress)
handle_site-started_example =
    handle_site-started site now 1000 false old_list state new_backup round
