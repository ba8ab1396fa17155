-- ===== src/Web/Requests.antt =====
-- `_parse_request`, `_transfer_agent_op`, `handle_archival_request` and `do_PUT` of
-- pghoard/webserver.py. A path is its parts between slashes, of which there is at least one. What
-- another thread answers is an argument. An exception that is no response is answered by the status
-- 503, as `_response_handler` does.
pub mod Sites
pub mod Archived
use pghoard.Base.{
  Bool, Files, List, Option, Result, Text, [], codes, drop, elem, false, if◌then◌else◌, leb, length,
  map, none, ok, os_error, path_join, raise, some, suc, text_eq, true, zero, ℕ, ◌&&◌, ◌++◌, ◌+◌,
  ◌-◌, ◌∷◌,
}
use pghoard.Wal.Header.{verify_wal}
use pghoard.Wal.Lsn.{is_wal_name, is_timeline_name}
use pghoard.Web.Server.{read_file, exists}

-- The type of what is asked for.
pub data ObjectType : Type 0 where
  basebackup status metrics xlog timeline : ObjectType

-- What a path asks for, or the status of the refusal.
pub data Parsed : Type 0 where
  asked : Option Text → ObjectType → Option Text → Parsed
  refused : ℕ → Parsed

-- A path that must have no further part.
unfoldable pub alone : ObjectType → List Text → Parsed
alone obtype [] = asked none obtype none
alone obtype (p ∷ ps) = refused 400

-- The type of a file to be archived, by its name.
unfoldable pub parse_archive : Text → Text → Parsed
parse_archive site name =
    if is_wal_name name
    then asked (some site) xlog (some name)
    else if is_timeline_name name
    then asked (some site) timeline (some name)
    else if text_eq name (codes "basebackup")
    then asked (some site) basebackup (some name)
    else refused 400

-- The parts after the site and the type, which are the name of one file.
unfoldable pub parse_single : (Text → Parsed) → List Text → Parsed
parse_single make (name ∷ []) = make name
parse_single make _ = refused 400

unfoldable pub parse_object : Text → Text → List Text → Parsed
unfolding parse_archive parse_single
parse_object site obtype rest =
    if text_eq obtype (codes "basebackup")
    then asked (some site) basebackup none
    else if text_eq obtype (codes "status")
    then asked (some site) status none
    else if text_eq obtype (codes "archive")
    then parse_single (parse_archive site) rest
    else if text_eq obtype (codes "timeline")
    then parse_single (λ name. asked (some site) timeline (some name)) rest
    else if text_eq obtype (codes "xlog")
    then parse_single (λ name. asked (some site) xlog (some name)) rest
    else refused 400

-- A path of a site, with the configured sites.
unfoldable pub parse_site : List Text → Text → List Text → Parsed
unfolding parse_object elem
parse_site backup_sites site [] = refused 400
parse_site backup_sites site (obtype ∷ rest) =
    if elem site backup_sites then parse_object site obtype rest else refused 404

unfoldable pub parse_request : List Text → Text → List Text → Parsed
unfolding alone parse_site
parse_request backup_sites first rest =
    if text_eq first (codes "status")
    then alone status rest
    else if text_eq first (codes "metrics")
    then alone metrics rest
    else parse_site backup_sites first rest

-- What comes back from the transfer agent for one operation, if it does in time.
pub data Reply {ℓ} (A : Type ℓ) : Type ℓ where
  timed_out missing failed : Reply A
  succeeded : A → Reply A

-- The outcome of an operation: its payload, or the status of the response.
pub data Outcome {ℓ} (A : Type ℓ) : Type ℓ where
  payload : A → Outcome A
  status_only : ℕ → Outcome A

-- `_transfer_agent_op` with its retries: the replies of the attempts from one on.
unfoldable pub transfer_agent_op {ℓ} : {A : Type ℓ} → ℕ → (ℕ → Reply A) → ℕ → Outcome A
transfer_agent_op zero replies attempt = elim (replies attempt) [
  | succeeded a ↦ payload a
  | missing ↦ status_only 404
  | _ ↦ status_only 500
]
transfer_agent_op (suc retries) replies attempt =
    let again = transfer_agent_op retries replies (attempt + 1) in
    elim (replies attempt) [ succeeded a ↦ payload a | missing ↦ status_only 404 | _ ↦ again ]

-- A CompressionEvent; `is_timeline` is its file type.
pub record Compression : Type 0 where
  pub site : Text
  pub name : Text
  pub source_data : Text
  pub compress_to_memory : Bool
  pub is_timeline : Bool

pub record Archiver : Type 0 where
  pub files : Files
  pub requested_basebackup_sites : List Text
  pub compression_queue : List Compression

-- A site's directory of WAL, and whether it has an object store.
pub record Site : Type 0 where
  pub name : Text
  pub xlog_dir : Text
  pub object_storage : Bool

-- The text ends in ".history", which has eight characters.
unfoldable pub is_history : Text → Bool
is_history name = leb 8 (length name) && text_eq (drop (length name - 8) name) (codes ".history")

-- The event is queued, and its callback is the answer.
unfoldable pub compress : Option Bool → Site → Text → Archiver → ℕ × Archiver
unfolding is_history path_join
compress reply site filename s = (
  elim reply [ some true ↦ 201 | _ ↦ 500 ],
  record s {
    compression_queue =
        s.compression_queue
        ++ record {
          site = site.name;
          name = filename;
          source_data = path_join site.xlog_dir filename;
          compress_to_memory = site.object_storage;
          is_timeline = is_history filename;
        }
          ∷ [];
  },
)

-- The status for a failed check: a ValueError is 412, an OSError goes through.
unfoldable pub check_status : Result (Unit {0}) → Option ℕ
check_status (ok u) = none
check_status (raise os_error) = some 503
check_status (raise error) = some 412

unfoldable pub archive_checked : Option ℕ → Option Bool → Site → Text → Archiver → ℕ × Archiver
unfolding compress
archive_checked (some code) reply site filename s = (code, s)
archive_checked none reply site filename s = compress reply site filename s

unfoldable pub archive_file : Option Bool → Bool → Site → Text → Archiver → ℕ × Archiver
unfolding archive_checked check_status exists read_file path_join
archive_file reply is_xlog site filename s =
    if exists (path_join site.xlog_dir filename) s.files
    then archive_checked
        (if is_xlog
          then check_status
              (verify_wal filename (read_file (path_join site.xlog_dir filename) s.files))
          else none)
        reply site filename s
    else (404, s)

-- `requested_basebackup_sites.add`
unfoldable pub request_basebackup : Text → Archiver → ℕ × Archiver
unfolding elem
request_basebackup site s = (
  201,
  record s {
    requested_basebackup_sites =
        if elem site s.requested_basebackup_sites
        then s.requested_basebackup_sites
        else site ∷ s.requested_basebackup_sites;
  },
)

unfoldable pub find_site : Text → List Site → Option Site
find_site name [] = none
find_site name (site ∷ sites) =
    let rest = find_site name sites in if text_eq name site.name then some site else rest

-- A site that is not configured is a KeyError, and so is no name to be joined a TypeError.
unfoldable pub archive_in : Option Bool → Bool → Option Site → Option Text → Archiver → ℕ × Archiver
unfolding archive_file
archive_in reply is_xlog (some site) (some filename) s = archive_file reply is_xlog site filename s
archive_in reply is_xlog _ _ s = (503, s)

-- `handle_archival_request` and the assertion of `do_PUT`, on a parsed path.
unfoldable pub put_parsed : Option Bool → List Site → Parsed → Archiver → ℕ × Archiver
unfolding request_basebackup archive_in find_site
put_parsed reply sites (refused code) s = (code, s)
put_parsed reply sites (asked (some site) basebackup name) s = request_basebackup site s
put_parsed reply sites (asked (some site) xlog name) s =
    archive_in reply true (find_site site sites) name s
put_parsed reply sites (asked (some site) timeline name) s =
    archive_in reply false (find_site site sites) name s
put_parsed reply sites _ s = (503, s)

-- `do_PUT`, with the reply to the compression, if there is one in time.
unfoldable pub do_put : Option Bool → List Site → Text → List Text → Archiver → ℕ × Archiver
unfolding parse_request put_parsed
do_put reply sites first rest s =
    put_parsed reply sites (parse_request (map (λ site. site.name) sites) first rest) s
