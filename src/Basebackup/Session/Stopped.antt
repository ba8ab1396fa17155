-- ===== src/Basebackup/Session/Stopped.antt =====
-- `Session.antt`: whether the server is left in backup mode.
use pghoard.Base.{
  Bool, Bool-cases, Option, Result, Text, [], codes, false, if◌then◌else◌, inl, inr, leb, ltb, ok,
  raise, refl, true, ℕ, ◌≡◌, ◌≢◌,
}
use pghoard.Basebackup.Session.{
  Statement, pg_backup_start, pg_start_backup, pg_backup_stop, pg_stop_backup,
  labelfile_of_backup_stop, labelfile_of_stop_backup, select_tablespaces, select_now,
  select_walfile_name, select_xlogfile_name, switch_wal, switch_xlog, commit, rollback, Row, Log,
  Db, succeeded, continue_with, ◌>>=◌, ◌>>◌, done, execute, start_backup, stop_backup,
  stop_with_label, copy_and_stop, stop_if_running, outcome, finally, force_switch, end_segment,
  get_backup_end_segment_and_time, assert_label, run_backup,
}
use pghoard.Basebackup.Session.Settled.{
  starts, reads, kind, running, IsSettled, Settles, continue_with-IsSettled, >>=-Settles,
  step-IsSettled, IsEnd, start-IsSettled, rollback-IsSettled, stop-IsSettled, HasStopped,
  continue_with-HasStopped, weaken,
}

module _ (answer : Log → Statement → Result Row) where
  execute-Settles :
      (statement : Statement) → kind statement ≢ starts → Settles (execute answer statement)
  unfolding Settles execute
  execute-Settles statement h log s =
      step-IsSettled statement (kind statement) (succeeded (answer log statement)) log refl h s

  either-Settles :
      (b : Bool) (x y : Statement)
      → kind x ≢ starts
      → kind y ≢ starts
      → Settles (execute answer (if b then x else y))
  either-Settles true x y h k = execute-Settles x h
  either-Settles false x y h k = execute-Settles y k

  reads-Settles :
      (statement : Statement) → kind statement ≡ reads → Settles (execute answer statement)
  reads-Settles statement h = execute-Settles statement λ e. cc

  done-Settles : {A : Type 0} (r : Result A) → Settles (done r)
  unfolding Settles
  done-Settles r log s = s

  start_backup-IsSettled :
      {B : Type 0} (pg_version_server : ℕ) (name : Text) (next : Row → Db B)
      → ((a : Row) → IsEnd (next a))
      → Settles (start_backup answer pg_version_server name >>= next)
  unfolding Settles start_backup execute
  start_backup-IsSettled pg_version_server name next f log s =
      elim (Bool-cases (leb 150000 pg_version_server)) [
        | inl e ↦ rw e (
            start-IsSettled (pg_backup_start name) (answer log (pg_backup_start name)) log next
              (unfold kind in refl) s f)
        | inr e ↦ rw e (
            start-IsSettled (pg_start_backup name) (answer log (pg_start_backup name)) log next
              (unfold kind in refl) s f)
      ]

  stop_backup-IsEnd : (pg_version_server : ℕ) → IsEnd (stop_backup answer pg_version_server)
  unfolding IsEnd stop_backup execute
  stop_backup-IsEnd pg_version_server log = elim (Bool-cases (leb 150000 pg_version_server)) [
    | inl e ↦ rw e (
        stop-IsSettled pg_backup_stop (succeeded (answer log pg_backup_stop)) log
          (unfold kind in refl))
    | inr e ↦ rw e (
        stop-IsSettled pg_stop_backup (succeeded (answer log pg_stop_backup)) log
          (unfold kind in refl))
  ]

  module _ (pg_version_server : ℕ) where
    force_switch-Settles :
        (is_superuser : Bool) → Settles (force_switch answer pg_version_server is_superuser)
    unfolding force_switch kind
    force_switch-Settles true =
        either-Settles (leb 100000 pg_version_server) switch_wal switch_xlog (λ e. cc) (λ e. cc)
    force_switch-Settles false =
        start_backup-IsSettled pg_version_server _ _ λ a. stop_backup-IsEnd pg_version_server

    end_segment-Settles : (now : Row) → Settles (end_segment answer pg_version_server now)
    unfolding end_segment kind
    end_segment-Settles now = elim (Bool-cases now.in_recovery) [
      | inl e ↦ rw e (>>=-Settles _ _ (reads-Settles commit refl) λ a. done-Settles _)
      | inr e ↦ rw e (
          >>=-Settles _ _
            (either-Settles (leb 100000 pg_version_server) select_walfile_name select_xlogfile_name
              (λ e. cc) (λ e. cc))
            λ segment. >>=-Settles _ _ (reads-Settles commit refl) λ a.
              >>=-Settles _ _ (force_switch-Settles now.is_superuser)
                λ a. >>=-Settles _ _ (reads-Settles commit refl) λ a. done-Settles _)
    ]

  StopsIfOk : {A : Type 0} → Db A → Type 0
  StopsIfOk m = (log : Log) → HasStopped (m log)

  >>=-StopsIfOk :
      {A B : Type 0} (m : Db A) (next : A → Db B)
      → ((a : A) → StopsIfOk (next a))
      → StopsIfOk (m >>= next)
  unfolding StopsIfOk
  >>=-StopsIfOk m next f log = continue_with-HasStopped (m log) next f

  Settles-StopsIfOk :
      {A B : Type 0} (m : Db A) (next : A → Db B)
      → IsEnd m
      → ((a : A) → Settles (next a))
      → StopsIfOk (m >>= next)
  unfolding StopsIfOk IsEnd
  Settles-StopsIfOk m next e f log =
      weaken (continue_with (m log) next) (continue_with-IsSettled (m log) next (e log) f)

  stop_with_label-IsEnd : (pg_version_server : ℕ) → IsEnd (stop_with_label answer pg_version_server)
  unfolding IsEnd stop_with_label execute
  stop_with_label-IsEnd pg_version_server log = elim (Bool-cases (leb 150000 pg_version_server)) [
    | inl e ↦ rw e (
        stop-IsSettled labelfile_of_backup_stop (succeeded (answer log labelfile_of_backup_stop))
          log (unfold kind in refl))
    | inr e ↦ rw e (
        stop-IsSettled labelfile_of_stop_backup (succeeded (answer log labelfile_of_stop_backup))
          log (unfold kind in refl))
  ]

  module _ (pg_version_server : ℕ) where
    copy_and_stop-StopsIfOk :
        {W : Type 0} (work : Result W) → StopsIfOk (copy_and_stop answer pg_version_server work)
    unfolding copy_and_stop kind
    copy_and_stop-StopsIfOk work = >>=-StopsIfOk (execute answer select_tablespaces) _ λ a.
        >>=-StopsIfOk (execute answer commit) _ λ a. >>=-StopsIfOk (done work) _ λ copied.
          Settles-StopsIfOk (stop_with_label answer pg_version_server) _
            (stop_with_label-IsEnd pg_version_server)
            λ row.
              >>=-Settles (execute answer commit) _ (reads-Settles commit refl)
                λ a. done-Settles (ok (row.text, copied))

    rollback_then :
        {B : Type 0} (next : Row → Db B)
        → ((a : Row) → IsEnd (next a))
        → IsEnd (execute answer rollback >>= next)
    unfolding IsEnd execute
    rollback_then next f log = rollback-IsSettled (answer log rollback) log next f

    stop_if_running-IsSettled :
        {A : Type 0} (r : Result A) (log : Log)
        → HasStopped (r, log)
        → IsSettled (stop_if_running answer pg_version_server (succeeded r) log).1
    unfolding stop_if_running HasStopped kind Settles IsEnd
    stop_if_running-IsSettled (ok a) log s =
        >>=-Settles (execute answer rollback) (λ a. execute answer commit)
          (execute-Settles rollback λ e. cc) (λ a. reads-Settles commit refl) log s
    stop_if_running-IsSettled (raise error) log s =
        rollback_then (λ a. stop_backup answer pg_version_server >> execute answer commit)
          (λ a log'.
            continue_with-IsSettled (stop_backup answer pg_version_server log')
              (λ a. execute answer commit) (stop_backup-IsEnd pg_version_server log')
              λ a. reads-Settles commit refl)
          log

    outcome-IsSettled :
        {A : Type 0} (r : Result A) (c : Result Row × Log)
        → IsSettled c.1
        → IsSettled (outcome r c).1
    outcome-IsSettled r (ok row, log) s = s
    outcome-IsSettled r (raise error, log) s = s

    finally-IsSettled :
        {A : Type 0} (r : Result A × Log)
        → HasStopped r
        → IsSettled (finally answer pg_version_server r).1
    finally-IsSettled (r, log) s =
        outcome-IsSettled r (stop_if_running answer pg_version_server (succeeded r) log)
          (stop_if_running-IsSettled r log s)

    get_backup_end-Settles : Settles (get_backup_end_segment_and_time answer pg_version_server)
    unfolding get_backup_end_segment_and_time kind
    get_backup_end-Settles =
        >>=-Settles (execute answer select_now) _ (reads-Settles select_now refl)
          (end_segment-Settles pg_version_server)

    after_start-IsEnd :
        {W B : Type 0} (work : Result W) (next : Text × W → Db B)
        → ((a : Text × W) → Settles (next a))
        → IsEnd (
            (λ log.
              finally answer pg_version_server (copy_and_stop answer pg_version_server work log))
            >>= next)
    unfolding IsEnd StopsIfOk
    after_start-IsEnd work next f log =
        continue_with-IsSettled
          (finally answer pg_version_server (copy_and_stop answer pg_version_server work log)) next
          (finally-IsSettled (copy_and_stop answer pg_version_server work log)
            (copy_and_stop-StopsIfOk work log))
          f

    -- After a backup, whether it succeeded or raised and whatever the server answered, no backup is
    -- left running on the server, unless a statement that stops it or the rollback before it failed.
    pub run_backup-IsSettled :
        {W : Type 0} (work : Result W) → IsSettled (run_backup answer pg_version_server work []).1
    unfolding run_backup IsSettled running Settles
    run_backup-IsSettled {W = W} work = elim (Bool-cases (ltb pg_version_server 90600)) [
      | inl e ↦ rw e (inl refl)
      | inr e ↦ rw e (
          start_backup-IsSettled pg_version_server (codes "pghoard_base_backup") _
            (λ a. after_start-IsEnd work _ λ (label, copied).
              >>=-Settles (done (assert_label label)) _ (done-Settles (assert_label label)) λ a.
                >>=-Settles (get_backup_end_segment_and_time answer pg_version_server) _
                  get_backup_end-Settles
                  λ (segment, time).
                    done-Settles {A = Text × W × Option Text × Text}
                      (ok (label, copied, segment, time)))
            [] (inl refl))
    ]
