-- ===== src/Transfer/Stats.antt =====
-- The statistics of `TransferAgent` in pghoard/transfer.py: what `run_safe` counts by site,
-- operation and type of file. The times are those of the monotonic clock in microseconds.
use pghoard.Base.{
  Bool, List, Option, Text, [], false, if◌then◌else◌, none, some, text_eq, true, ℕ, ◌&&◌, ◌+◌, ◌∷◌,
}
pub mod Since

pub data TransferOperation : Type 0 where
  download upload list metadata : TransferOperation

-- The types of files that the statistics have an entry for.
pub data FileType : Type 0 where
  wal timeline basebackup basebackup_chunk basebackup_delta basebackup_delta_chunk : FileType

abbrev pub same_operation : TransferOperation → TransferOperation → Bool
same_operation download download = true
same_operation upload upload = true
same_operation list list = true
same_operation metadata metadata = true
same_operation _ _ = false

abbrev pub same_type : FileType → FileType → Bool
same_type wal wal = true
same_type timeline timeline = true
same_type basebackup basebackup = true
same_type basebackup_chunk basebackup_chunk = true
same_type basebackup_delta basebackup_delta = true
same_type basebackup_delta_chunk basebackup_delta_chunk = true
same_type _ _ = false

-- An entry, `EMPTY` at first. A file name that is missing is the empty text.
pub record Stats : Type 0 where
  pub data_size : ℕ
  pub count : ℕ
  pub time_taken : ℕ
  pub failures : ℕ
  pub xlogs_since_basebackup : ℕ
  pub last_success : Option ℕ
  pub latest_filename : Text

abbrev pub empty_stats : Stats
empty_stats = record {
  data_size = 0;
  count = 0;
  time_taken = 0;
  failures = 0;
  xlogs_since_basebackup = 0;
  last_success = none;
  latest_filename = [];
}

-- `self.state`: a site without entries has the empty ones, which `set_state_defaults_for_site` puts
-- in before the first use.
abbrev pub State : Type 0
State = Text → TransferOperation → FileType → Stats

abbrev pub no_stats : State
no_stats site op type = empty_stats

-- `state[site][oper][filetype]` is changed by a function.
unfoldable pub update : Text → TransferOperation → FileType → (Stats → Stats) → State → State
update site op type f state s o t =
    if text_eq s site && (same_operation o op && same_type t type)
    then f (state s o t)
    else state s o t

pub record Outcome : Type 0 where
  pub site : Text
  pub operation : TransferOperation
  pub file_type : FileType
  pub filename : Text
  pub oper_size : ℕ
  pub finished_at : ℕ
  pub took : ℕ

-- The count of WAL files since a base backup, at the end of an upload.
unfoldable pub note_upload : FileType → Stats → Stats
note_upload wal st = record st { xlogs_since_basebackup = st.xlogs_since_basebackup + 1 }
note_upload timeline st = st
note_upload _ st = record st { xlogs_since_basebackup = 0 }

unfoldable pub note_operation : TransferOperation → Outcome → State → State
unfolding note_upload update
note_operation upload o state = update o.site upload wal (note_upload o.file_type) state
note_operation _ o state = state

unfoldable pub note_success : Outcome → State → State
unfolding note_operation update
note_success o state =
    update o.site o.operation o.file_type
      (λ st. record st {
        last_success = some o.finished_at;
        count = st.count + 1;
        data_size = st.data_size + o.oper_size;
        time_taken = st.time_taken + o.took;
        latest_filename = o.filename;
      })
      (note_operation o.operation o state)

unfoldable pub note_failure : Outcome → State → State
unfolding update
note_failure o state =
    update o.site o.operation o.file_type (λ st. record st { failures = st.failures + 1 }) state

-- The results of operations in their order: whether they were successes, and what they were.
unfoldable pub note_all : List (Bool × Outcome) → State → State
unfolding note_success note_failure
note_all [] state = state
note_all ((true, o) ∷ os) state = note_all os (note_success o state)
note_all ((false, o) ∷ os) state = note_all os (note_failure o state)
