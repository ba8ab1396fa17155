-- ===== src/Tests/Web.antt =====
-- Concrete inputs for the theorems about the web server.
use pghoard.Base.{
  List, Text, [], arith, codes, false, if◌then◌else◌, none, ok, refl, set_file, some, text_eq, true,
  ◌>>=◌, ◌∷◌, ◌≡◌,
}
use mathlib.Core.Path.{subst}
use pghoard.Wal.Hex.{hex08}
use pghoard.Wal.Lsn.{walfile_name, segments_per_xlogid, seg}
use pghoard.Web.Server.{Server}
use pghoard.Web.Prefetch.{prefetch_filenames, leave_out, is_segment_there}
use pghoard.Web.Prefetch.Segments.{following, prefetch_filenames-walfile_name}
use pghoard.Web.Download.{Request, Moment, get_wal_or_timeline_file}
use pghoard.Web.Download.Served.{IsServed}
use pghoard.Web.Download.Answers.{get_wal_or_timeline_file-IsServed}
use pghoard.Web.Requests.{Site, Archiver}

-- The next three segments begin a new log file.
prefetch_filenames-walfile_name_example :
    prefetch_filenames 3
      (codes "pg_wal")
      (codes "xlog")
      (codes "0000000100000000000000FE")
      (λ p. none)
    ≡ (following 3 1 254 >>= λ names.
        ok (leave_out (is_segment_there (codes "pg_wal") (λ p. none)) names))
unfolding walfile_name hex08 segments_per_xlogid seg
prefetch_filenames-walfile_name_example =
    prefetch_filenames-walfile_name 3 1 254 (codes "pg_wal") (codes "0000000100000000000000FE")
      (λ p. none) (omega arith) (omega arith) refl

abbrev asked_for : Request
asked_for = record {
  site = codes "s";
  xlog_dir = codes "d";
  filename = codes "00000002.history";
  filetype = codes "timeline";
  target_path = some (codes "/p");
  target = record { is_inside = true; has_parent = true; is_writable = true };
}

-- The file appears while the request waits.
abbrev fetched : Server → Server
fetched s = record s {
  files = set_file (codes "d/00000002.history.pghoard.prefetch") (some (codes "x")) s.files;
}

abbrev moment : Moment
moment = record { now = 7; mkstemp = λ name. some (codes "d/t") }

abbrev idle : Server
idle = record {
  files = λ p. none;
  pending_download_ops = [];
  prefetch_404 = [];
  served_from_disk = [];
  most_recently_served_files = [];
  transfer_queue = [];
}

option_eq : {a b : Text} → some a ≡ some b → a ≡ b
option_eq h = cc

get_wal_or_timeline_file-IsServed_example :
    IsServed asked_for (codes "/p") (
      get_wal_or_timeline_file 1 moment asked_for ((moment, fetched) ∷ (moment, fetched) ∷ []) idle)
get_wal_or_timeline_file-IsServed_example =
    get_wal_or_timeline_file-IsServed 1 moment asked_for (codes "/p")
      ((moment, fetched) ∷ (moment, fetched) ∷ []) idle refl
      (λ name tmp h.
        unfold text_eq in subst (λ t. text_eq (codes "/p") t ≡ false) (option_eq h) refl)

abbrev sites : List Site
sites = record { name = codes "s"; xlog_dir = codes "d"; object_storage = true } ∷ []

abbrev archiver : Archiver
archiver = record {
  files = λ p. if text_eq p (codes "d/00000002.history") then some (codes "x") else none;
  requested_basebackup_sites = [];
  compression_queue = [];
}
