-- ===== src/Web/Download.antt =====
-- `get_wal_or_timeline_file` of pghoard/webserver.py with `_validate_target_path`. The clock, the
-- temporary names and what the other threads do while this one sleeps are arguments. The check of a
-- file and its rename are one step; the source holds the lock over them only where it waits for a
-- download, so that what another thread does between them elsewhere is not in the model. An exception
-- that is no response is the answer `fail`.
pub mod Served
pub mod Turns
pub mod Kept
pub mod Answers
use pghoard.Base.{
  Bool, Files, List, Option, Result, Text, [], codes, elem, false, if◌then◌else◌, leb, none, not,
  ok, os_error, path_join, raise, some, starts_with_slash, suc, text_eq, true, zero, ℕ, ◌&&◌, ◌+◌,
  ◌-◌, ◌∷◌,
}
use pghoard.Wal.Header.{verify_wal}
use pghoard.Web.Server.{
  Server, PendingOp, Answer, go_on, respond, fail, Wanted, exists, read_file, lookup_op,
  append_bounded, rename_checked, prefetch_path, create_fetch_operation,
}
use pghoard.Web.Prefetch.{make_file_key, create_prefetch_operations}

-- What the operating system says of a target path: whether, resolved, it is inside the data
-- directory, whether its parent is a directory, and whether it can be written.
pub record Target : Type 0 where
  pub is_inside : Bool
  pub has_parent : Bool
  pub is_writable : Bool

unfoldable pub validate_target_path : Target → Text → Answer
unfolding starts_with_slash
validate_target_path target path =
    if not (starts_with_slash path)
    then respond 400
    else if not target.is_inside
    then respond 400
    else if not target.has_parent
    then respond 409
    else go_on

-- A request: the site, its WAL directory, the file and its type, and the header with the path.
pub record Request : Type 0 where
  pub site : Text
  pub xlog_dir : Text
  pub filename : Text
  pub filetype : Text
  pub target_path : Option Text
  pub target : Target

-- The arguments of one moment: the time and the temporary names.
pub record Moment : Type 0 where
  pub now : ℕ
  pub mkstemp : Text → Option Text

-- What follows runs if nothing is answered yet.
abbrev pub then_do : Answer × Server → (Server → Answer × Server) → Answer × Server
then_do (go_on, s) next = next s
then_do (respond status, s) next = (respond status, s)
then_do (fail error, s) next = (fail error, s)

-- `wal.verify_wal` of a segment; the other files are not checked.
unfoldable pub verified : Text → Text → Text → Files → Result (Unit {0})
unfolding read_file
verified filetype filename path files =
    if text_eq filetype (codes "xlog") then verify_wal filename (read_file path files) else ok tt

unfoldable pub remember : Text → Text → Server → Server
remember filetype filename s = record s {
  most_recently_served_files = (filetype, filename) ∷ s.most_recently_served_files;
}

-- A file that is there is checked and renamed to the target.
unfoldable pub serve_checked : Result (Unit {0}) → Request → Text → Text → Server → Answer × Server
unfolding rename_checked
serve_checked (raise error) r src path s = (fail error, s)
serve_checked (ok u) r src path s = rename_checked r.target.is_writable src path s

unfoldable pub serve : Request → Text → Text → Server → Answer × Server
unfolding verified serve_checked
serve r src path s = serve_checked (verified r.filetype r.filename src s.files) r src path s

-- The prefetched file.
unfoldable pub serve_prefetched :
    (Moment → Server → Answer × Server) → Moment → Request → Text → Server → Answer × Server
unfolding serve remember
serve_prefetched ahead m r path s =
    then_do (serve r (prefetch_path r.xlog_dir r.filename) path s)
      (λ s. then_do (ahead m s) (λ s. (respond 201, remember r.filetype r.filename s)))

-- The answer with a file of the WAL directory, noted so that it is not served from there again.
unfoldable pub serve_local : Request → Text → Server → Answer × Server
unfolding rename_checked remember append_bounded
serve_local r path s =
    then_do (rename_checked r.target.is_writable (path_join r.xlog_dir r.filename) path s) (λ s. (
      respond 201,
      remember r.filetype r.filename
          (record s { served_from_disk = append_bounded 10 r.filename s.served_from_disk }),
    ))

-- The file that is in the WAL directory already, unless it is invalid or was served lately.
unfoldable pub serve_found : Result (Unit {0}) → Request → Text → Server → Answer × Server
unfolding serve_local
serve_found (ok u) r path s = serve_local r path s
serve_found (raise os_error) r path s = (fail os_error, s)
serve_found (raise error) r path s = (go_on, s)

unfoldable pub serve_from_disk : Request → Text → Server → Answer × Server
unfolding serve_found verified exists elem
serve_from_disk r path s =
    if exists (path_join r.xlog_dir r.filename) s.files && not (elem r.filename s.served_from_disk)
    then serve_found (verified r.filetype r.filename (path_join r.xlog_dir r.filename) s.files) r
        path s
    else (go_on, s)

-- `prefetch_404.remove(key)`: the first one.
unfoldable pub forget : Text → List Text → List Text
forget key [] = []
forget key (k ∷ ks) = let rest = forget key ks in if text_eq key k then ks else k ∷ rest

abbrev pub wanted : Request → Wanted
wanted r = record {
  key = make_file_key r.site r.filetype r.filename;
  xlog_dir = r.xlog_dir;
  filetype = r.filetype;
  obname = r.filename;
}

-- A download that is neither finished nor pending is started again, twice at most.
unfoldable pub start_again : Moment → Request → ℕ → Server → Answer × Server
unfolding create_fetch_operation
start_again m r zero s = (respond 500, s)
start_again m r (suc retries) s =
    create_fetch_operation none false m.now (m.mkstemp r.filename) (wanted r) s

unfoldable pub is_pending : Request → Server → Bool
unfolding lookup_op
is_pending r s = elim (lookup_op (wanted r).key s.pending_download_ops) [
  | none ↦ false
  | some op ↦ true
]

-- A stale operation is replaced, once a second.
unfoldable pub replace_stale : Moment → Request → ℕ → Server → Answer × Server
unfolding create_fetch_operation
replace_stale m r last_schedule_call s =
    if leb (last_schedule_call + 1) m.now
    then create_fetch_operation (some 10) false m.now (m.mkstemp r.filename) (wanted r) s
    else (go_on, s)

-- The part of a turn after the look at the target.
unfoldable pub keep_fetching : Moment → Request → ℕ → ℕ → Server → Answer × Server
unfolding start_again is_pending replace_stale elem
keep_fetching m r retries last_schedule_call s =
    if elem (wanted r).key s.prefetch_404
    then (respond 404, s)
    else then_do (if is_pending r s then (go_on, s) else start_again m r retries s)
        (replace_stale m r last_schedule_call)

-- One turn of the loop.
unfoldable pub look : Moment → Request → Text → ℕ → ℕ → Server → Answer × Server
unfolding keep_fetching serve remember exists
look m r path retries last_schedule_call s =
    if exists (prefetch_path r.xlog_dir r.filename) s.files
    then then_do (serve r (prefetch_path r.xlog_dir r.filename) path s)
        (λ s. (respond 201, remember r.filetype r.filename s))
    else keep_fetching m r retries last_schedule_call s

-- The turns of the loop: a moment of each, and what the other threads do in the sleep after it. The
-- list of the turns ends, at the latest, when 30 seconds have passed.
unfoldable pub wait_for_file :
    Request → Text → ℕ → ℕ → ℕ → List (Moment × (Server → Server)) → Server → Answer × Server
unfolding look is_pending
wait_for_file r path start_time retries last_schedule_call [] s = (respond 500, s)
wait_for_file r path start_time retries last_schedule_call ((m, others) ∷ turns) s =
    let retries' = if is_pending r s then retries else retries - 1 in
    let last = if leb (last_schedule_call + 1) m.now then m.now else last_schedule_call in
    let rest : Server → Answer × Server = wait_for_file r path start_time retries' last turns in
    if leb m.now (start_time + 30)
    then then_do (look m r path retries last_schedule_call s) (λ s. rest (others s))
    else (respond 500, s)

-- The fetch of the file itself and of the following ones, and the loop.
unfoldable pub fetch_and_wait :
    ℕ → Moment → Request → Text → List (Moment × (Server → Server)) → Server → Answer × Server
unfolding forget create_fetch_operation create_prefetch_operations wait_for_file
fetch_and_wait prefetch_n m r path turns s =
    then_do
      (create_fetch_operation (some 5) false m.now (m.mkstemp r.filename) (wanted r)
        (record s { prefetch_404 = forget (wanted r).key s.prefetch_404 }))
      (λ s.
        then_do
          (create_prefetch_operations m.mkstemp m.now prefetch_n r.site r.xlog_dir r.filetype
            r.filename s)
          (wait_for_file r path m.now 2 m.now turns))

unfoldable pub get_to_path :
    ℕ → Moment → Request → Text → List (Moment × (Server → Server)) → Server → Answer × Server
unfolding validate_target_path serve_prefetched serve_from_disk fetch_and_wait exists
get_to_path prefetch_n m r path turns s =
    then_do (validate_target_path r.target path, s)
      (λ s.
        if exists (prefetch_path r.xlog_dir r.filename) s.files
        then serve_prefetched
            (λ m.
              create_prefetch_operations m.mkstemp m.now prefetch_n r.site r.xlog_dir r.filetype
                r.filename)
            m r path s
        else then_do (serve_from_disk r path s) (fetch_and_wait prefetch_n m r path turns))

-- By the header of the request, which must have a path.
unfoldable pub get_to_header :
    ℕ
    → Moment
    → Request
    → Option Text
    → List (Moment × (Server → Server))
    → Server
    → Answer × Server
unfolding get_to_path
get_to_header prefetch_n m r (some (c ∷ path)) turns s =
    get_to_path prefetch_n m r (c ∷ path) turns s
get_to_header prefetch_n m r _ turns s = (respond 400, s)

-- `prefetch_n` is the configured `restore_prefetch`.
unfoldable pub get_wal_or_timeline_file :
    ℕ → Moment → Request → List (Moment × (Server → Server)) → Server → Answer × Server
unfolding get_to_header
get_wal_or_timeline_file prefetch_n m r turns s = get_to_header prefetch_n m r r.target_path turns s
