-- ===== src/Tests/Restore.antt =====
-- Concrete inputs for the theorems about pghoard/restore.py.
use pghoard.Base.{
  Files, List, Text, [], arith, codes, false, if◌then◌else◌, member, none, ok, path_join, refl,
  some, starts_with_slash, text_eq, text_lt, true, ℕ, ◌∷◌, ◌≡◌,
}
use pghoard.Restore.Choice.{Listed, is_applicable, find_nearest_basebackup}
use pghoard.Restore.Choice.Nearest.{IsNearest, find_nearest_basebackup-IsNearest}
use pghoard.Restore.Conf.{
  Settings, PgVersion, use_recovery_conf, conf_lines, conf_text, signal_standby,
  create_recovery_conf,
}
use pghoard.Restore.Conf.Written.{conf_path, Replaced, create_recovery_conf_replaces}
use pghoard.Tar.Sed.{parse, is_special}
use pghoard.Restore.Unpack.{tablespace_statement}
use pghoard.Restore.Unpack.Transform.{quoted_name, parse-tablespace_statement}
use pghoard.Restore.Fetcher.{Jobs, completed, failed, requeued, handle_all}
use pghoard.Restore.Fetcher.Refinement.{job, happen_all, Exclusive, handle_all_refines}

abbrev one_pending : Jobs
one_pending = record {
  pending_jobs = 3 ∷ 5 ∷ [];
  completed_jobs = 4 ∷ [];
  jobs_to_retry = [];
  retry_per_file = λ i. 0;
  errors = 0;
}

handle_all_refines_example :
    Exclusive
      (handle_all (failed 3 true ∷ requeued 3 ∷ completed 5 ∷ failed 3 false ∷ []) one_pending)
    × ((i : ℕ)
        → job
            (handle_all
              (failed 3 true ∷ requeued 3 ∷ completed 5 ∷ failed 3 false ∷ [])
              one_pending)
            i
          ≡ happen_all i
              (failed 3 true ∷ requeued 3 ∷ completed 5 ∷ failed 3 false ∷ [])
              (job one_pending i))
unfolding member
handle_all_refines_example =
    handle_all_refines (failed 3 true ∷ requeued 3 ∷ completed 5 ∷ failed 3 false ∷ []) one_pending
      (λ i. ground arith)

-- Two backups of the same night, of which one ended before the target, and an older one.
abbrev listing : List Listed
listing =
    record { name = codes "b"; start_time = codes "2024-01-02"; end_time = none }
    ∷ record { name = codes "c"; start_time = codes "2024-01-03"; end_time = some (codes "x") }
    ∷ record { name = codes "a"; start_time = codes "2024-01-01"; end_time = none }
    ∷ []

abbrev parsed : Text → ℕ
parsed t = if text_eq t (codes "x") then 30 else 10

find_nearest_basebackup-IsNearest_example :
    IsNearest parsed
      (some 30)
      listing
      (ok (record { name = codes "b"; start_time = codes "2024-01-02"; end_time = none }))
unfolding find_nearest_basebackup is_applicable text_eq text_lt
find_nearest_basebackup-IsNearest_example =
    find_nearest_basebackup-IsNearest parsed (some 30) listing

-- A restored data directory of PostgreSQL 15 with settings of its own.
abbrev restored : Files
restored p =
    if text_eq p (codes "d/PG_VERSION")
    then some (codes "15")
    else if text_eq p (codes "d/postgresql.auto.conf")
    then some (codes "work_mem = '64MB'")
    else none

abbrev settings : Settings
settings = record {
  site = codes "s";
  port = codes "16000";
  primary_conninfo = none;
  recovery_end_command = none;
  recovery_target_action = some (codes "promote");
  recovery_target_name = none;
  recovery_target_time = none;
  recovery_target_xid = none;
  restore_to_primary = false;
}

abbrev fifteen : PgVersion
fifteen = record { major = 15; minor = 0 }

create_recovery_conf_replaces_example :
    (files' : Files) × (create_recovery_conf
        (λ t. t)
        (λ t. some fifteen)
        (codes "d")
        settings
        restored
      ≡ ok (conf_text (conf_lines (λ t. t) fifteen settings), files'))
    × Replaced
        (conf_path fifteen (codes "d"))
        (conf_text (conf_lines (λ t. t) fifteen settings))
        (signal_standby fifteen (codes "d") settings restored)
        files'
unfolding text_eq path_join starts_with_slash use_recovery_conf
create_recovery_conf_replaces_example =
    create_recovery_conf_replaces (λ t. t) (λ t. some fifteen) (codes "d") settings restored
      (codes "15") fifteen refl refl refl

parse-tablespace_statement_example :
    parse (tablespace_statement (codes "my,space+1") (codes "/a,b"))
    ≡ ok (codes "^tablespaces/my,space\\+1/(.*)$", codes "/a,b/\\1")
unfolding quoted_name is_special
parse-tablespace_statement_example =
    parse-tablespace_statement (codes "my,space+1") (codes "/a,b")
      ((λ h. omega arith), ((λ h. omega arith), ((λ h. omega arith), ((λ h. omega arith), tt))))
