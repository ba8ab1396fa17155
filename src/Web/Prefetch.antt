-- ===== src/Web/Prefetch.antt =====
-- `_create_prefetch_operations` of pghoard/webserver.py.
pub mod Segments
use pghoard.Base.{
  Bool, Files, List, Option, Result, Text, [], codes, elem, false, if◌then◌else◌, length, ltb, none,
  ok, or_raise, path_join, raise, replicate, suc, text_eq, true, value_error, zero, ℕ, ◌%◌, ◌&&◌,
  ◌++◌, ◌+◌, ◌-◌, ◌==◌, ◌>>=◌, ◌>>◌, ◌∷◌,
}
use pghoard.Tar.Names.{starts_with}
use pghoard.Wal.Hex.{int16, hex08, upper_hex}
use pghoard.Wal.Header.{verify_wal}
use pghoard.Web.Server.{
  Server, Answer, go_on, respond, fail, Wanted, exists, read_file, create_fetch_operation,
}

-- The format `{:024X}`
unfoldable pub hex024 : ℕ → Text
hex024 n = replicate (24 - length (upper_hex n)) 48 ++ upper_hex n

-- The number of the next segment.
unfoldable pub next_xlog_num : ℕ → ℕ
next_xlog_num n = if n % 256 == 255 then n + 0xFFFFFF00 + 1 else n + 1

unfoldable pub xlog_names : ℕ → ℕ → List Text
unfolding hex024 next_xlog_num
xlog_names zero n = []
xlog_names (suc prefetch_n) n = hex024 (next_xlog_num n) ∷ xlog_names prefetch_n (next_xlog_num n)

unfoldable pub timeline_names : ℕ → ℕ → List Text
timeline_names zero n = []
timeline_names (suc prefetch_n) n =
    (hex08 (n + 1) ++ codes ".history") ∷ timeline_names prefetch_n (n + 1)

-- A segment in the directory is left alone if it is valid.
is_valid : Result (Unit {0}) → Bool
is_valid (ok u) = true
is_valid (raise error) = false

unfoldable pub is_segment_there : Text → Files → Text → Bool
unfolding exists read_file is_valid path_join
is_segment_there xlog_dir files name =
    exists (path_join xlog_dir name) files
    && is_valid (verify_wal name (read_file (path_join xlog_dir name) files))

unfoldable pub is_timeline_there : Text → Files → Text → Bool
unfolding exists path_join
is_timeline_there xlog_dir files name = exists (path_join xlog_dir name) files

unfoldable pub leave_out : (Text → Bool) → List Text → List Text
leave_out there [] = []
leave_out there (name ∷ names) =
    let rest = leave_out there names in if there name then rest else name ∷ rest

-- `text.replace(part, "")`, with the number of characters of an occurrence that are still to be
-- passed.
unfoldable pub removed : Text → ℕ → Text → Text
unfolding starts_with
removed part passed [] = []
removed part (suc passed) (c ∷ cs) = removed part passed cs
removed part zero (c ∷ cs) =
    let found = starts_with part (c ∷ cs) in
    let rest = removed part (if found then length part - 1 else 0) cs in
    if found then rest else c ∷ rest

-- `filename.replace(".history", "")`
unfoldable pub without_history : Text → Text
unfolding removed
without_history filename = removed (codes ".history") 0 filename

-- The names that are fetched ahead of a file; a name that is no number raises.
unfoldable pub prefetch_filenames : ℕ → Text → Text → Text → Files → Result (List Text)
unfolding timeline_names xlog_names leave_out is_segment_there is_timeline_there without_history
prefetch_filenames prefetch_n xlog_dir filetype filename files =
    if text_eq filetype (codes "timeline")
    then (do
      n ← or_raise (int16 (without_history filename)) value_error
      ok (leave_out (is_timeline_there xlog_dir files) (timeline_names prefetch_n n)))
    else (do
      n ← or_raise (int16 filename) value_error
      ok (leave_out (is_segment_there xlog_dir files) (xlog_names prefetch_n n)))

-- `_make_file_key`
unfoldable pub make_file_key : Text → Text → Text → Text
make_file_key site filetype filename = site ++ (b'_' ∷ filetype ++ (b'_' ∷ filename))

-- The operations for the names, but for those that were not found before. `mkstemp` is the temporary
-- file of a name.
unfoldable pub fetch_ahead :
    (Text → Option Text) → ℕ → Text → Text → Text → List Text → Server → Server
unfolding make_file_key elem create_fetch_operation
fetch_ahead mkstemp now site xlog_dir filetype [] s = s
fetch_ahead mkstemp now site xlog_dir filetype (name ∷ names) s =
    fetch_ahead mkstemp now site xlog_dir filetype names (
      if elem (make_file_key site filetype name) s.prefetch_404
      then s
      else (create_fetch_operation none true now (mkstemp name)
          (record {
            key = make_file_key site filetype name;
            xlog_dir = xlog_dir;
            filetype = filetype;
            obname = name;
          })
          s).1)

unfoldable pub fetch_names :
    (Text → Option Text) → ℕ → Text → Text → Text → Result (List Text) → Server → Answer × Server
unfolding fetch_ahead
fetch_names mkstemp now site xlog_dir filetype (raise error) s = (fail error, s)
fetch_names mkstemp now site xlog_dir filetype (ok names) s =
    (go_on, fetch_ahead mkstemp now site xlog_dir filetype names s)

unfoldable pub create_prefetch_operations :
    (Text → Option Text) → ℕ → ℕ → Text → Text → Text → Text → Server → Answer × Server
unfolding prefetch_filenames fetch_names elem
create_prefetch_operations mkstemp now prefetch_n site xlog_dir filetype filename s =
    if elem filetype (codes "timeline" ∷ codes "xlog" ∷ []) && ltb 0 prefetch_n
    then fetch_names mkstemp now site xlog_dir filetype
        (prefetch_filenames prefetch_n xlog_dir filetype filename s.files) s
    else (go_on, s)
