-- ===== src/Schedule/Details.antt =====
-- `get_new_backup_details` of pghoard/pghoard.py: whether a site wants a new base backup.
use pghoard.Base.{
  Bool, Bool-cases, List, Option, [], ap, arith, false, if◌then◌else◌, inl, inr, leb, none, not,
  refl, some, sym, true, ℕ, ◌&&◌, ◌*◌, ◌++◌, ◌+◌, ◌/◌, ◌<◌, ◌==◌, ◌∙◌, ◌∷◌, ◌≡◌, ◌≤◌,
}
use mathlib.Core.Path.{subst₂}
use pghoard.Backups.Info.{Basebackup, BackupReason, requested, scheduled}
use pghoard.Backups.Retention.{hour}
use pghoard.Schedule.BackupTime.{ScheduleConfig, get_normalized_backup_time}

-- The metadata for the new backup.
pub record NewBackup : Type 0 where
  pub backup_decision_time : ℕ
  pub backup_reason : BackupReason
  pub normalized_backup_time : Option ℕ

-- `basebackups[-1]`
unfoldable pub last : List Basebackup → Option Basebackup
last [] = none
last (b ∷ []) = some b
last (b ∷ c ∷ bs) = last (c ∷ bs)

unfoldable pub is_scheduled : BackupReason → Bool
is_scheduled requested = false
is_scheduled scheduled = true

-- `scheduled_backups[-1]["metadata"]["backup-decision-time"]`
unfoldable pub most_recent_scheduled : List Basebackup → Option ℕ
unfolding is_scheduled
most_recent_scheduled [] = none
most_recent_scheduled (b ∷ bs) = elim (most_recent_scheduled bs) [
  | some t ↦ some t
  | none ↦
      if is_scheduled b.metadata.backup_reason then some b.metadata.backup_decision_time else none
]

unfoldable pub same_time : Option ℕ → Option ℕ → Bool
same_time none none = true
same_time (some a) (some b) = a == b
same_time _ _ = false

unfoldable pub isnt_too_recent : ℕ → ℕ → Option ℕ → Bool
isnt_too_recent now interval none = true
isnt_too_recent now interval (some t) = leb (t + interval * hour / 2) now

-- With an hour and a minute of the day: the scheduled time has moved on, and half an interval has
-- passed since the last scheduled backup.
unfoldable pub due_by_time_of_day : ℕ → ℕ → Option ℕ → Basebackup → Option ℕ → Bool
unfolding same_time isnt_too_recent
due_by_time_of_day now interval normalized newest recent =
    not (same_time newest.metadata.normalized_backup_time normalized)
    && isnt_too_recent now interval recent

-- With neither: an interval has passed since the last backup.
unfoldable pub due_by_interval : ℕ → ℕ → Basebackup → Bool
due_by_interval now interval newest = leb (newest.metadata.start_time + interval * hour) now

-- The branches behind the check that there is a backup: with an hour but no minute nothing is
-- scheduled.
unfoldable pub due_for :
    Option ℕ → Option ℕ → ScheduleConfig → ℕ → ℕ → List Basebackup → Basebackup → Bool
unfolding due_by_time_of_day due_by_interval most_recent_scheduled get_normalized_backup_time
due_for (some h) (some m) c now interval basebackups newest =
    due_by_time_of_day now interval (get_normalized_backup_time c now) newest
      (most_recent_scheduled basebackups)
due_for (some h) none c now interval basebackups newest = false
due_for none m c now interval basebackups newest = due_by_interval now interval newest

unfoldable pub due : ScheduleConfig → ℕ → ℕ → List Basebackup → Basebackup → Bool
unfolding due_for
due c = due_for c.basebackup_hour c.basebackup_minute c

unfoldable pub due_at_all :
    ScheduleConfig → ℕ → Option ℕ → List Basebackup → Option Basebackup → Bool
unfolding due
due_at_all c now none basebackups newest = false
due_at_all c now (some interval) basebackups none = true
due_at_all c now (some interval) basebackups (some newest) = due c now interval basebackups newest

-- `is_requested` says that the site is in `requested_basebackup_sites`; it is taken out of that set
-- by the call, so the new value is always false.
unfoldable pub get_new_backup_details :
    ScheduleConfig → ℕ → List Basebackup → Bool → Option NewBackup
unfolding due_at_all last
get_new_backup_details c now basebackups is_requested =
    let details = λ (reason : BackupReason).
      (let d : NewBackup = record {
        backup_decision_time = now;
        backup_reason = reason;
        normalized_backup_time = get_normalized_backup_time c now;
      } in
        d) in
    if is_requested
    then some (details requested)
    else if due_at_all c now c.basebackup_interval_hours basebackups (last basebackups)
    then some (details scheduled)
    else none

-- The entry that the object store lists once the backup has been taken: it started at the time of
-- the decision or later.
abbrev pub IsTaken : NewBackup → Basebackup → Type 0
IsTaken d b =
    (b.metadata.backup_decision_time ≡ d.backup_decision_time)
    × (b.metadata.backup_reason ≡ d.backup_reason)
    × (b.metadata.normalized_backup_time ≡ d.normalized_backup_time)
    × (d.backup_decision_time ≤ b.metadata.start_time)

last-append : (bs : List Basebackup) (b : Basebackup) → last (bs ++ b ∷ []) ≡ some b
unfolding last
last-append [] b = refl
last-append (x ∷ []) b = refl
last-append (x ∷ y ∷ bs) b = last-append (y ∷ bs) b

same_time_refl : (o : Option ℕ) → same_time o o ≡ true
unfolding same_time
same_time_refl none = refl
same_time_refl (some a) = ground arith

not_due_again :
    (h m : Option ℕ) (c : ScheduleConfig) (now interval : ℕ) (bs : List Basebackup) (d : NewBackup)
    (b : Basebackup)
    → 0 < interval
    → d.backup_decision_time ≡ now
    → d.normalized_backup_time ≡ get_normalized_backup_time c now
    → IsTaken d b
    → due_for h m c now interval bs b ≡ false
unfolding due_for due_by_time_of_day due_by_interval
not_due_again (some h) (some m) c now interval bs d b hi et en (_, _, same, _) =
    rw (same ∙ en, same_time_refl (get_normalized_backup_time c now)) refl
not_due_again (some h) none c now interval bs d b hi et en taken = refl
not_due_again none m c now interval bs d b hi et en (_, _, _, later) = ground arith

details_fields :
    (c : ScheduleConfig) (now : ℕ) (bs : List Basebackup) (is_requested : Bool) (d : NewBackup)
    → get_new_backup_details c now bs is_requested ≡ some d
    → (d.backup_decision_time ≡ now) × (d.normalized_backup_time ≡ get_normalized_backup_time c now)
unfolding get_new_backup_details
details_fields c now bs is_requested d e = (ground arith, ground arith)

due_at_all-some :
    (c : ScheduleConfig) (now interval : ℕ) (bs : List Basebackup) (newest : Basebackup)
    → c.basebackup_interval_hours ≡ some interval
    → last bs ≡ some newest
    → due_at_all c now c.basebackup_interval_hours bs (last bs)
      ≡ due_for c.basebackup_hour c.basebackup_minute c now interval bs newest
unfolding due_at_all due
due_at_all-some c now interval bs newest ei el =
    ap (λ o. due_at_all c now o bs (last bs)) ei
    ∙ ap (λ o. due_at_all c now (some interval) bs o) el

-- Once the backup that was decided on is in the list, the same moment asks for no other one, unless
-- a new request comes.
pub get_new_backup_details_once :
    (c : ScheduleConfig) (now interval : ℕ) (bs : List Basebackup) (is_requested : Bool)
    (d : NewBackup) (b : Basebackup)
    → c.basebackup_interval_hours ≡ some interval
    → 0 < interval
    → get_new_backup_details c now bs is_requested ≡ some d
    → IsTaken d b
    → get_new_backup_details c now (bs ++ b ∷ []) false ≡ none
unfolding get_new_backup_details
get_new_backup_details_once c now interval bs is_requested d b ei hi e taken =
    let (et, en) = details_fields c now bs is_requested d e in
    let all = bs ++ b ∷ [] in
    let not_due =
      due_at_all-some c now interval all b ei (last-append bs b)
      ∙ not_due_again c.basebackup_hour c.basebackup_minute c now interval all d b hi et en taken in
    rw not_due refl

apart :
    (interval now : ℕ) (changed : Bool) (t : ℕ) (o : Option ℕ)
    → o ≡ some t
    → (changed && isnt_too_recent now interval o) ≡ true
    → t + interval * hour / 2 ≤ now
unfolding isnt_too_recent
apart interval now changed t o e h = ground arith

last_total : (x : Basebackup) (xs : List Basebackup) → (b : Basebackup) × (last (x ∷ xs) ≡ some b)
unfolding last
last_total x [] = (x, refl)
last_total x (y ∷ xs) = last_total y xs

due_apart :
    (c : ScheduleConfig) (now h m interval t : ℕ) (bs : List Basebackup)
    → c.basebackup_hour ≡ some h
    → c.basebackup_minute ≡ some m
    → c.basebackup_interval_hours ≡ some interval
    → most_recent_scheduled bs ≡ some t
    → due_at_all c now c.basebackup_interval_hours bs (last bs) ≡ true
    → t + interval * hour / 2 ≤ now
unfolding due_for due_by_time_of_day
due_apart c now h m interval t [] eh em ei et e = absurd (unfold most_recent_scheduled in cc et)
due_apart c now h m interval t (x ∷ xs) eh em ei et e =
    let (newest, el) = last_total x xs in
    let whole = sym (due_at_all-some c now interval (x ∷ xs) newest ei el) ∙ e in
    let timed : due_for (some h) (some m) c now interval (x ∷ xs) newest ≡ true =
      subst₂ (λ p q. due_for p q c now interval (x ∷ xs) newest ≡ true) eh em whole in
    apart interval now _ t (most_recent_scheduled (x ∷ xs)) et timed

-- With an hour and a minute of the day, a backup that is decided on without a request is a
-- scheduled one, and at least half an interval behind the decision on the last scheduled one.
pub get_new_backup_details_apart :
    (c : ScheduleConfig) (now h m interval t : ℕ) (bs : List Basebackup) (d : NewBackup)
    → c.basebackup_hour ≡ some h
    → c.basebackup_minute ≡ some m
    → c.basebackup_interval_hours ≡ some interval
    → most_recent_scheduled bs ≡ some t
    → get_new_backup_details c now bs false ≡ some d
    → (d.backup_reason ≡ scheduled) × (t + interval * hour / 2 ≤ now)
unfolding get_new_backup_details
get_new_backup_details_apart c now h m interval t bs d eh em ei et e =
    elim (Bool-cases (due_at_all c now c.basebackup_interval_hours bs (last bs))) [
      | inl yes_due ↦ (ground arith, due_apart c now h m interval t bs eh em ei et yes_due)
      | inr not_due ↦ absurd (ground arith)
    ]
