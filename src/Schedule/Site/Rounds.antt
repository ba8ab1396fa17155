-- ===== src/Schedule/Site/Rounds.antt =====
-- What a round of `handle_site` of pghoard/pghoard.py may do.
use pghoard.Base.{
  Bool, Bool-cases, List, Option, [], ap, arith, false, if◌then◌else◌, inl, inr, min, none, refl,
  some, sym, true, ℕ, ◌*◌, ◌++◌, ◌+◌, ◌^◌, ◌∙◌, ◌∷◌, ◌≡◌, ◌≢◌, ◌≤◌, ◌⊎◌,
}
use mathlib.Core.Path.{subst}
use pghoard.Backups.Info.{Basebackup, scheduled}
use pghoard.Schedule.Details.{NewBackup, get_new_backup_details}
use pghoard.Schedule.Site.{
  second, DeltaFailure, Running, idle, in_progress, ended, SiteConfig, SiteState, Action, refresh,
  create_basebackup, interval_passed, may_retry, settle_running, settle, start, go_on, handle_site,
}

-- The backup that a round starts.
abbrev pub started : List Action → Option NewBackup
started [] = none
started (refresh ∷ as') = started as'
started (create_basebackup d ∷ as') = some d

settle_no_start :
    (r : Running) (c : SiteConfig) (now monotonic : ℕ) (s s' : SiteState) (acts : List Action)
    → settle_running r c now monotonic s ≡ some (s', acts)
    → s.running ≡ r
    → (started acts ≡ none)
      × (s'.running ≡ idle)
      × (r ≢ in_progress)
      × (s'.is_requested ≡ s.is_requested)
unfolding settle_running
settle_no_start in_progress c now monotonic s s' acts e er = cc
settle_no_start (ended b) c now monotonic s s' acts e er = ground arith
settle_no_start idle c now monotonic s s' acts e er = ground arith

started-append : (xs ys : List Action) → started xs ≡ none → started (xs ++ ys) ≡ started ys
started-append [] ys h = refl
started-append (refresh ∷ xs) ys h = started-append xs ys h
started-append (create_basebackup d ∷ xs) ys h = cc

start_lem :
    (c : SiteConfig) (now : ℕ) (maintenance : Bool) (s : SiteState) (o : Option NewBackup)
    (d : NewBackup)
    → started (start c now maintenance s o).1 ≡ some d
    → (maintenance ≡ false)
      × (may_retry c now d.backup_reason s.delta_failure ≡ true)
      × (o ≡ some d)
      × ((start c now maintenance s o).0.running ≡ in_progress)
unfolding start
start_lem c now maintenance s none d h = cc
start_lem c now true s (some e) d h = cc
start_lem c now false s (some e) d h =
    elim (Bool-cases (may_retry c now e.backup_reason s.delta_failure)) [
      | inl go ↦
          let both : some e ≡ some d = rw go at h in
          let same : e ≡ d = cc both in
          (
            refl,
            subst (λ x. may_retry c now x.backup_reason s.delta_failure ≡ true) same go,
            both,
            rw go refl,
          )
      | inr wait ↦ absurd (cc (rw wait at h))
    ]

go_on-started :
    (c : SiteConfig) (now monotonic : ℕ) (maintenance : Bool) (bs : List Basebackup) (s : SiteState)
    (o : Option (SiteState × List Action)) (d : NewBackup)
    → settle c now monotonic s ≡ o
    → started (go_on c now maintenance bs s o).1 ≡ some d
    → (maintenance ≡ false)
      × (s.running ≢ in_progress)
      × ((go_on c now maintenance bs s o).0.running ≡ in_progress)
unfolding go_on settle
go_on-started c now monotonic maintenance bs s none d e h = cc
go_on-started c now monotonic maintenance bs s (some (s', acts)) d e h =
    let (quiet, stopped, free, same) = settle_no_start s.running c now monotonic s s' acts e refl in
    let details = get_new_backup_details c.schedule now bs s'.is_requested in
    let begun : started (start c now maintenance s' details).1 ≡ some d =
      sym (started-append acts _ quiet) ∙ h in
    let (calm, allowed, decided, under_way) = start_lem c now maintenance s' details d begun in
    (calm, free, under_way)

handle_site_active :
    (c : SiteConfig) (now monotonic : ℕ) (maintenance : Bool) (bs : List Basebackup) (s : SiteState)
    → c.active ≡ true
    → handle_site c now monotonic maintenance bs s
      ≡ go_on c now maintenance bs s (settle c now monotonic s)
unfolding handle_site
handle_site_active c now monotonic maintenance bs s on =
    ap (λ b. if b then go_on c now maintenance bs s (settle c now monotonic s) else (s, [])) on

handle_site_inactive :
    (c : SiteConfig) (now monotonic : ℕ) (maintenance : Bool) (bs : List Basebackup) (s : SiteState)
    → c.active ≡ false
    → started (handle_site c now monotonic maintenance bs s).1 ≡ none
unfolding handle_site
handle_site_inactive c now monotonic maintenance bs s off =
    ap
      (λ b.
        started (if b then go_on c now maintenance bs s (settle c now monotonic s) else (s, [])).1)
      off

-- A round starts a base backup only for an active site, outside maintenance mode, while none is
-- under way; the state then holds that one is under way.
pub handle_site-started :
    (c : SiteConfig) (now monotonic : ℕ) (maintenance : Bool) (bs : List Basebackup) (s : SiteState)
    (d : NewBackup)
    → started (handle_site c now monotonic maintenance bs s).1 ≡ some d
    → (c.active ≡ true)
      × (maintenance ≡ false)
      × (s.running ≢ in_progress)
      × ((handle_site c now monotonic maintenance bs s).0.running ≡ in_progress)
handle_site-started c now monotonic maintenance bs s d h = elim (Bool-cases c.active) [
  | inl on ↦
      let whole = handle_site_active c now monotonic maintenance bs s on in
      let inner = ap (λ r. started r.1) (sym whole) ∙ h in
      let (calm, free, under_way) =
        go_on-started c now monotonic maintenance bs s (settle c now monotonic s) d refl inner in
      (on, calm, free, ap (λ r. r.0.running) whole ∙ under_way)
  | inr off ↦
      let nothing : none ≡ some d =
        sym (handle_site_inactive c now monotonic maintenance bs s off) ∙ h in
      absurd (cc nothing)
]

no_start_in_maintenance :
    (c : SiteConfig) (now : ℕ) (s : SiteState) (o : Option NewBackup)
    → (started (start c now true s o).1 ≡ none) × ((start c now true s o).0.is_requested ≡ false)
unfolding start
no_start_in_maintenance c now s none = (refl, refl)
no_start_in_maintenance c now s (some d) = (refl, refl)

settle_none :
    (r : Running) (c : SiteConfig) (now monotonic : ℕ) (s : SiteState)
    → settle_running r c now monotonic s ≡ none
    → r ≡ in_progress
unfolding settle_running
settle_none in_progress c now monotonic s e = refl
settle_none (ended b) c now monotonic s e = cc
settle_none idle c now monotonic s e = ground arith

go_on_maintenance :
    (c : SiteConfig) (now monotonic : ℕ) (bs : List Basebackup) (s : SiteState)
    (o : Option (SiteState × List Action))
    → settle c now monotonic s ≡ o
    → s.running ≢ in_progress
    → (started (go_on c now true bs s o).1 ≡ none)
      × ((go_on c now true bs s o).0.is_requested ≡ false)
unfolding go_on settle
go_on_maintenance c now monotonic bs s none e free =
    absurd (free (settle_none s.running c now monotonic s e))
go_on_maintenance c now monotonic bs s (some (s', acts)) e free =
    let (quiet, stopped, _, same) = settle_no_start s.running c now monotonic s s' acts e refl in
    let details = get_new_backup_details c.schedule now bs s'.is_requested in
    let (none_started, dropped) = no_start_in_maintenance c now s' details in
    (started-append acts _ quiet ∙ none_started, dropped)

-- In maintenance mode a round that finds no backup under way starts none and forgets a request for
-- one.
pub handle_site_forgets :
    (c : SiteConfig) (now monotonic : ℕ) (bs : List Basebackup) (s : SiteState)
    → c.active ≡ true
    → s.running ≢ in_progress
    → (started (handle_site c now monotonic true bs s).1 ≡ none)
      × ((handle_site c now monotonic true bs s).0.is_requested ≡ false)
handle_site_forgets c now monotonic bs s on free =
    let whole = handle_site_active c now monotonic true bs s on in
    let (quiet, dropped) =
      go_on_maintenance c now monotonic bs s (settle c now monotonic s) refl free in
    (ap (λ r. started r.1) whole ∙ quiet, ap (λ r. r.0.is_requested) whole ∙ dropped)

-- After failures of delta backups a scheduled one is tried again only once the backup interval has
-- passed since the last failure, or, within the allowed number of retries, once three seconds to
-- the power of one more than that number have passed, an hour at most.
pub may_retry_backoff :
    (c : SiteConfig) (now : ℕ) (f : DeltaFailure)
    → may_retry c now scheduled (some f) ≡ true
    → (interval_passed c.schedule.basebackup_interval_hours now f ≡ true)
      ⊎ ((f.retries ≤ c.basebackup_delta_mode_max_retries)
          × (f.last_failed_time + min (3 ^ (f.retries + 1)) 3600 * second ≤ now))
unfolding may_retry
may_retry_backoff c now f h =
    elim (Bool-cases (interval_passed c.schedule.basebackup_interval_hours now f)) [
      | inl passed ↦ inl passed
      | inr waiting ↦ inr (ground arith, ground arith)
    ]
