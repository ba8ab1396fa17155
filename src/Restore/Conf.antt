-- ===== src/Restore/Conf.antt =====
-- `create_signal_file` and `create_recovery_conf` of pghoard/restore.py. The files are a function
-- from paths to contents. `adapt` is psycopg2's quoting, and `parse_version` packaging's `Version`
-- with its major and minor part.
pub mod Written
use pghoard.Base.{
  Bool, Files, List, Option, Result, Text, [], append_file, codes, if◌then◌else◌, leb, ltb, none,
  not, ok, or_raise, os_error, path_join, rename, some, suc, text_eq, value_error, write_file, zero,
  ℕ, ◌&&◌, ◌++◌, ◌/◌, ◌==◌, ◌>>=◌, ◌||◌, ◌∷◌,
}

-- `create_signal_file`
unfoldable pub create_signal_file : Text → Files → Files
unfolding write_file
create_signal_file path files = write_file path [] files

-- The arguments after the directory, the port as it is printed.
pub record Settings : Type 0 where
  pub site : Text
  pub port : Text
  pub primary_conninfo : Option Text
  pub recovery_end_command : Option Text
  pub recovery_target_action : Option Text
  pub recovery_target_name : Option Text
  pub recovery_target_time : Option Text
  pub recovery_target_xid : Option Text
  pub restore_to_primary : Bool

-- The version of the server, its major and its minor part.
pub record PgVersion : Type 0 where
  pub major : ℕ
  pub minor : ℕ

unfoldable pub first_digit : ℕ → ℕ → ℕ
first_digit zero n = n
first_digit (suc fuel) n = let rest = first_digit fuel (n / 10) in if ltb n 10 then n else rest

-- `pg_version >= 9.5`, where before PostgreSQL 10 the version is the number "major.minor".
unfoldable pub at_least_9_5 : PgVersion → Bool
unfolding first_digit
at_least_9_5 v = ltb 9 v.major || v.major == 9 && leb 5 (first_digit v.minor v.minor)

unfoldable pub use_recovery_conf : PgVersion → Bool
use_recovery_conf v = ltb v.major 12

unfoldable pub trigger_file_setting : PgVersion → Option Text
trigger_file_setting v =
    if ltb v.major 12
    then some (codes "trigger_file")
    else if ltb v.major 16
    then some (codes "promote_trigger_file")
    else none

unfoldable pub join_words : List Text → Text
join_words [] = []
join_words (w ∷ []) = w
join_words (w ∷ v ∷ ws) = let rest = join_words (v ∷ ws) in w ++ b' ' ∷ rest

unfoldable pub restore_command : Settings → Text
unfolding join_words
restore_command s = join_words (
    codes "pghoard_postgres_command"
    ∷ codes "--mode"
    ∷ codes "restore"
    ∷ codes "--port"
    ∷ s.port
    ∷ codes "--site"
    ∷ s.site
    ∷ codes "--output"
    ∷ codes "%p"
    ∷ codes "--xlog"
    ∷ codes "%f"
    ∷ [])

-- The line of a setting that is given and not empty.
unfoldable pub line_of : (Text → Text) → Option Text → List Text
line_of make none = []
line_of make (some []) = []
line_of make (some (c ∷ s)) = make (c ∷ s) ∷ []

-- Between single quotes, as the text is.
abbrev pub quoted : Text → Text
quoted s = 39 ∷ s ++ 39 ∷ []

-- The lines of `recovery_target_action`, by the version.
unfoldable pub action_lines : PgVersion → Text → List Text
unfolding at_least_9_5
action_lines v action =
    if at_least_9_5 v
    then (codes "recovery_target_action = " ++ quoted action) ∷ []
    else if text_eq action (codes "promote")
    then []
    else if text_eq action (codes "pause")
    then codes "pause_at_recovery_target = True" ∷ []
    else []

unfoldable pub target_action : PgVersion → Option Text → List Text
unfolding action_lines
target_action v none = []
target_action v (some []) = []
target_action v (some (c ∷ s)) = action_lines v (c ∷ s)

-- What the lines say of a standby: in recovery.conf only.
unfoldable pub standby_lines : PgVersion → Settings → List Text
unfolding use_recovery_conf
standby_lines v s =
    if not s.restore_to_primary && use_recovery_conf v then codes "standby_mode = 'on'" ∷ [] else []

unfoldable pub conf_lines : (Text → Text) → PgVersion → Settings → List Text
unfolding restore_command trigger_file_setting line_of target_action standby_lines
conf_lines adapt v s =
    codes "# pghoard created recovery.conf"
      ∷ codes "recovery_target_timeline = 'latest'"
      ∷ (codes "restore_command = " ++ quoted (restore_command s))
      ∷ line_of (λ setting. setting ++ codes " = " ++ adapt (codes "trigger_file"))
          (trigger_file_setting v)
    ++ standby_lines v s
    ++ line_of (λ t. codes "primary_conninfo = " ++ adapt t) s.primary_conninfo
    ++ line_of (λ t. codes "recovery_end_command = " ++ adapt t) s.recovery_end_command
    ++ target_action v s.recovery_target_action
    ++ line_of (λ t. codes "recovery_target_name = " ++ quoted t) s.recovery_target_name
    ++ line_of (λ t. codes "recovery_target_time = " ++ quoted t) s.recovery_target_time
    ++ line_of (λ t. codes "recovery_target_xid = " ++ quoted t) s.recovery_target_xid

-- `"\n".join(lines) + "\n"`
unfoldable pub conf_text : List Text → Text
conf_text [] = []
conf_text (line ∷ lines) = line ++ 10 ∷ conf_text lines

-- The signal file of a standby, since PostgreSQL 12.
unfoldable pub signal_standby : PgVersion → Text → Settings → Files → Files
unfolding create_signal_file use_recovery_conf
signal_standby v dirpath s files =
    if not s.restore_to_primary && not (use_recovery_conf v)
    then create_signal_file (path_join dirpath (codes "standby.signal")) files
    else files

-- The content goes to a file beside the target, which then takes the target's name. The empty line
-- that is put before the lines of a file that is appended to comes after they are joined.
unfoldable pub write_conf : PgVersion → Text → Text → Files → Files
unfolding use_recovery_conf write_file append_file rename
write_conf v dirpath content files =
    if use_recovery_conf v
    then rename (path_join dirpath (codes "recovery.conf") ++ codes ".tmp")
        (path_join dirpath (codes "recovery.conf"))
        (write_file (path_join dirpath (codes "recovery.conf") ++ codes ".tmp") content files)
    else rename (path_join dirpath (codes "postgresql.auto.conf") ++ codes ".tmp")
        (path_join dirpath (codes "postgresql.auto.conf"))
        (append_file (path_join dirpath (codes "postgresql.auto.conf") ++ codes ".tmp") content
          files)

unfoldable pub with_version :
    (Text → Text) → Text → Settings → Files → PgVersion → Result (Text × Files)
unfolding conf_lines conf_text signal_standby write_conf
with_version adapt dirpath s files v =
    let content = conf_text (conf_lines adapt v s) in
    ok (content, write_conf v dirpath content (signal_standby v dirpath s files))

unfoldable pub create_recovery_conf :
    (Text → Text) → (Text → Option PgVersion) → Text → Settings → Files → Result (Text × Files)
unfolding with_version
create_recovery_conf adapt parse_version dirpath s files =
    or_raise (files (path_join dirpath (codes "PG_VERSION"))) os_error >>= λ text.
    or_raise (parse_version text) value_error >>= λ v. with_version adapt dirpath s files v
