-- ===== src/Basebackup/Session.antt =====
-- The statements that pghoard/basebackup/base.py sends to the server for a backup: the start and the
-- stop of it in `run_local_tar_basebackup`, and `get_backup_end_segment_and_time`. `answer` is what
-- the server answers to a statement after those before it, `work` the outcome of the copying of the
-- files between the start and the stop. What is read from the label, and the end of the connection,
-- are left out.
pub mod Settled
pub mod Stopped
use pghoard.Base.{
  Bool, List, Option, Result, Text, [], assertion_error, codes, false, if◌then◌else◌, leb, ltb,
  none, ok, other_error, raise, some, true, ℕ, ◌∷◌,
}

pub data Statement : Type 0 where
  pg_backup_start pg_start_backup : Text → Statement
  pg_backup_stop pg_stop_backup : Statement
  labelfile_of_backup_stop labelfile_of_stop_backup : Statement
  select_tablespaces select_now : Statement
  select_walfile_name select_xlogfile_name : Statement
  switch_wal switch_xlog : Statement
  commit rollback : Statement

-- The columns of an answer that are read.
pub record Row : Type 0 where
  pub text : Text
  pub in_recovery : Bool
  pub is_superuser : Bool

-- The statements so far and whether they succeeded, the newest first.
abbrev pub Log : Type 0
Log = List (Statement × Bool)

abbrev pub Db : Type 0 → Type 0
Db A = Log → Result A × Log

abbrev pub succeeded : {A : Type 0} → Result A → Bool
succeeded (ok a) = true
succeeded (raise error) = false

abbrev pub continue_with : {A B : Type 0} → Result A × Log → (A → Db B) → Result B × Log
continue_with (ok a, log) next = next a log
continue_with (raise error, log) next = (raise error, log)

infixl 1 ◌>>=◌ ◌>>◌
abbrev pub ◌>>=◌ : {A B : Type 0} → Db A → (A → Db B) → Db B
first >>= next = λ log. continue_with (first log) next

abbrev pub ◌>>◌ : {A B : Type 0} → Db A → Db B → Db B
first >> next = first >>= λ a. next

abbrev pub done : {A : Type 0} → Result A → Db A
done r log = (r, log)

-- An exception of the `finally` replaces the outcome of the body.
abbrev pub outcome : {A : Type 0} → Result A → Result Row × Log → Result A × Log
outcome r (ok row, log) = (r, log)
outcome r (raise error, log) = (raise error, log)

-- `assert backup_label`
unfoldable pub assert_label : Text → Result (Unit {0})
assert_label [] = raise assertion_error
assert_label (c ∷ label) = ok tt

module _ (answer : Log → Statement → Result Row) where
  unfoldable pub execute : Statement → Db Row
  execute statement log = let row = answer log statement in (row, (statement, succeeded row) ∷ log)

  module _ (pg_version_server : ℕ) where
    unfoldable pub start_backup : Text → Db Row
    unfolding execute
    start_backup basebackup_name = execute (
        if leb 150000 pg_version_server
        then pg_backup_start basebackup_name
        else pg_start_backup basebackup_name)

    unfoldable pub stop_backup : Db Row
    unfolding execute
    stop_backup = execute (if leb 150000 pg_version_server then pg_backup_stop else pg_stop_backup)

    -- The stop that reads the label.
    unfoldable pub stop_with_label : Db Row
    unfolding execute
    stop_with_label = execute (
        if leb 150000 pg_version_server then labelfile_of_backup_stop else labelfile_of_stop_backup)

    -- The body of the `try`, up to `backup_stopped = True`.
    unfoldable pub copy_and_stop : {W : Type 0} → Result W → Db (Text × W)
    unfolding execute stop_with_label
    copy_and_stop work = do
      execute select_tablespaces
      execute commit
      copied ← done work
      row ← stop_with_label
      execute commit
      done (ok (row.text, copied))

    -- The `finally`; the flag is `backup_stopped`.
    unfoldable pub stop_if_running : Bool → Db Row
    unfolding execute stop_backup
    stop_if_running true = do execute rollback; execute commit
    stop_if_running false = do execute rollback; stop_backup; execute commit

    abbrev pub finally : {A : Type 0} → Result A × Log → Result A × Log
    finally (r, log) = outcome r (stop_if_running (succeeded r) log)

    unfoldable pub force_switch : Bool → Db Row
    unfolding execute start_backup stop_backup
    force_switch true = execute (if leb 100000 pg_version_server then switch_wal else switch_xlog)
    force_switch false = do start_backup (codes "pghoard_end_of_backup"); stop_backup

    -- The segment, if the server is not in recovery, and the time.
    unfoldable pub end_segment : Row → Db (Option Text × Text)
    unfolding execute force_switch
    end_segment now =
        if now.in_recovery then (do execute commit; done (ok (none, now.text))) else (do
          segment ←
              execute
                (if leb 100000 pg_version_server then select_walfile_name else select_xlogfile_name)
          execute commit
          force_switch now.is_superuser
          execute commit
          done (ok (some segment.text, now.text)))

    unfoldable pub get_backup_end_segment_and_time : Db (Option Text × Text)
    unfolding execute end_segment
    get_backup_end_segment_and_time = do now ← execute select_now; end_segment now

    unfoldable pub run_backup : {W : Type 0} → Result W → Db (Text × W × Option Text × Text)
    unfolding start_backup copy_and_stop stop_if_running assert_label
        get_backup_end_segment_and_time
    run_backup work = if ltb pg_version_server 90600 then done (raise other_error) else (do
      start_backup (codes "pghoard_base_backup")
      (label, copied) ← λ log. finally (copy_and_stop work log)
      done (assert_label label)
      (segment, time) ← get_backup_end_segment_and_time
      done (ok (label, copied, segment, time)))
