-- ===== src/Web/Server.antt =====
-- The shared state of pghoard/webserver.py, `DownloadResultsProcessor.process_queue_item`,
-- `_create_fetch_operation`, and `_rename`. Times are in whole units. What another thread or the
-- operating system answers is an argument: the name that `mkstemp` finds, and whether a path can be
-- renamed to.
use pghoard.Base.{
  Bool, Error, Files, List, Option, Result, Text, [], codes, drop, false, if◌then◌else◌, leb,
  length, none, ok, or_raise, os_error, other_error, path_join, raise, rename, set_file, some,
  text_eq, true, ℕ, ◌++◌, ◌+◌, ◌-◌, ◌||◌, ◌∷◌,
}
use pghoard.Wal.Header.{verify_wal}

-- `PendingDownloadOp`
pub record PendingOp : Type 0 where
  pub started_at : ℕ
  pub target_path : Text
  pub filetype : Text
  pub filename : Text

-- The `DownloadEvent` that goes to the transfer queue.
pub record Download : Type 0 where
  pub file_type : Text
  pub object_name : Text
  pub destination_path : Text
  pub opaque : Text

pub record Server : Type 0 where
  pub files : Files
  pub pending_download_ops : List (Text × PendingOp)
  pub prefetch_404 : List Text
  pub served_from_disk : List Text
  pub most_recently_served_files : List (Text × Text)
  pub transfer_queue : List Download

-- `deque(maxlen=n).append`
unfoldable pub append_bounded : ℕ → Text → List Text → List Text
append_bounded n x xs = drop (length xs + 1 - n) (xs ++ x ∷ [])

unfoldable pub lookup_op : Text → List (Text × PendingOp) → Option PendingOp
lookup_op key [] = none
lookup_op key ((k, op) ∷ ops) =
    let rest = lookup_op key ops in if text_eq key k then some op else rest

-- `dict.pop(key, None)` leaves these.
unfoldable pub without_op : Text → List (Text × PendingOp) → List (Text × PendingOp)
without_op key [] = []
without_op key ((k, op) ∷ ops) =
    let rest = without_op key ops in if text_eq key k then rest else (k, op) ∷ rest

abbrev pub with_files : Files → Server → Server
with_files files s = record s { files = files }

-- What a step answers: nothing yet, or a response with a status, or an exception.
pub data Answer : Type 0 where
  go_on : Answer
  respond : ℕ → Answer
  fail : Error → Answer

-- The content of a file, or the error of opening it.
unfoldable pub read_file : Text → Files → Result Text
read_file path files = or_raise (files path) os_error

-- `os.rename` raises where the source is missing or the target cannot be written.
unfoldable pub rename_found : Option Text → Bool → Text → Text → Server → Answer × Server
unfolding rename
rename_found none writable src dst s = (fail os_error, s)
rename_found (some content) false src dst s = (fail os_error, s)
rename_found (some content) true src dst s = (go_on, with_files (rename src dst s.files) s)

unfoldable pub rename_checked : Bool → Text → Text → Server → Answer × Server
unfolding rename_found
rename_checked writable src dst s = rename_found (s.files src) writable src dst s

-- A callback event of a download: its outcome, with the target path of the payload.
pub data Outcome : Type 0 where
  not_found failed : Outcome
  finished : Option Text → Outcome

unfoldable pub exists : Text → Files → Bool
exists path files = elim (files path) [ none ↦ false | some content ↦ true ]

abbrev pub unlink : Text → Server → Server
unlink path s = with_files (set_file path none s.files) s

-- A download that is verified where it is a segment, and renamed within its directory, which is taken
-- to be writable.
unfoldable pub place : PendingOp → Text → Server → Answer × Server
unfolding rename_checked read_file set_file
place op src s =
    if text_eq op.filetype (codes "xlog")
    then elim (verify_wal op.filename (read_file src s.files)) [
      | ok _ ↦ rename_checked true src op.target_path s
      | raise os_error ↦ (fail os_error, s)
      | raise error ↦ (go_on, unlink src s)
    ]
    else rename_checked true src op.target_path s

unfoldable pub finish_download : Option PendingOp → Text → Server → Answer × Server
unfolding place exists set_file
finish_download none src s = (go_on, unlink src s)
finish_download (some op) src s =
    if exists op.target_path s.files then (go_on, s) else place op src s

unfoldable pub process_queue_item : Text → Outcome → Server → Answer × Server
unfolding without_op append_bounded finish_download lookup_op
process_queue_item key not_found s = (
  go_on,
  record s {
    pending_download_ops = without_op key s.pending_download_ops;
    prefetch_404 = append_bounded 32 key s.prefetch_404;
  },
)
process_queue_item key failed s =
    (go_on, record s { pending_download_ops = without_op key s.pending_download_ops })
process_queue_item key (finished none) s =
    (fail other_error, record s { pending_download_ops = without_op key s.pending_download_ops })
process_queue_item key (finished (some src)) s =
    finish_download (lookup_op key s.pending_download_ops) src
      (record s { pending_download_ops = without_op key s.pending_download_ops })

-- `existing and (max_age < 0 or now - existing.started_at <= max_age)`; no age is a negative one.
unfoldable pub is_fresh : Option ℕ → ℕ → Option PendingOp → Bool
is_fresh max_age now none = false
is_fresh none now (some op) = true
is_fresh (some age) now (some op) = leb now (op.started_at + age)

abbrev pub prefetch_path : Text → Text → Text
prefetch_path xlog_dir obname = path_join xlog_dir (obname ++ codes ".pghoard.prefetch")

-- The directory and the type of what is fetched, its name and its key.
pub record Wanted : Type 0 where
  pub key : Text
  pub xlog_dir : Text
  pub filetype : Text
  pub obname : Text

-- The operation is noted and queued, with its temporary file.
unfoldable pub start_fetch : ℕ → Text → Wanted → Server → Server
unfolding set_file without_op
start_fetch now tmp w s = record s {
  files = set_file tmp (some []) s.files;
  pending_download_ops =
      (
        w.key,
        record {
          started_at = now;
          target_path = prefetch_path w.xlog_dir w.obname;
          filetype = w.filetype;
          filename = w.obname;
        },
      )
      ∷ without_op w.key s.pending_download_ops;
  transfer_queue =
      s.transfer_queue
      ++ record {
        file_type = w.filetype;
        object_name = w.obname;
        destination_path = tmp;
        opaque = w.key;
      }
        ∷ [];
}

unfoldable pub make_temporary : Bool → ℕ → Option Text → Wanted → Server → Answer × Server
unfolding start_fetch
make_temporary suppress_error now (some tmp) w s = (go_on, start_fetch now tmp w s)
make_temporary suppress_error now none w s = ((if suppress_error then go_on else respond 400), s)

-- `mkstemp` is the name of the temporary file, if one can be created.
unfoldable pub create_fetch_operation :
    Option ℕ → Bool → ℕ → Option Text → Wanted → Server → Answer × Server
unfolding is_fresh lookup_op exists make_temporary path_join
create_fetch_operation max_age suppress_error now mkstemp w s =
    if is_fresh max_age now (lookup_op w.key s.pending_download_ops)
      || exists (prefetch_path w.xlog_dir w.obname) s.files
    then (go_on, s)
    else make_temporary suppress_error now mkstemp w s
