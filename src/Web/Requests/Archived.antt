-- ===== src/Web/Requests/Archived.antt =====
-- The PUT requests of pghoard/webserver.py.
use pghoard.Base.{
  Bool, List, Text, [], elem, false, map, ok, path_join, some, true, ℕ, ◌++◌, ◌==◌, ◌∷◌, ◌≡◌, ◌⊎◌,
}
use pghoard.Wal.Header.{verify_wal}
use pghoard.Web.Requests.{
  timeline, Parsed, asked, Compression, Archiver, Site, is_history, find_site,
}

-- The event that a file of a site becomes.
abbrev pub event_of : Site → Text → Compression
event_of site filename = record {
  site = site.name;
  name = filename;
  source_data = path_join site.xlog_dir filename;
  compress_to_memory = site.object_storage;
  is_timeline = is_history filename;
}

-- A file that is there, checked if it is to be, was queued.
abbrev pub QueuedFile : Bool → Site → Text → Archiver → Archiver → Type 0
QueuedFile is_xlog site filename s s' =
    (content : Text) × (s.files (path_join site.xlog_dir filename) ≡ some content)
    × ((is_xlog ≡ false) ⊎ (verify_wal filename (ok content) ≡ ok tt))
    × (s'.compression_queue ≡ s.compression_queue ++ event_of site filename ∷ [])

-- What a success promises of a file.
abbrev pub FileArchived : Bool → Site → Text → Archiver → ℕ × Archiver → Type 0
FileArchived is_xlog site filename s r =
    ((r.0 == 201) ≡ false) ⊎ QueuedFile is_xlog site filename s r.1

-- A success: a backup was requested for the configured site that the path begins with, or a file of
-- that site was queued, checked unless the path asks for it as a timeline's file.
abbrev pub IsArchived : List Site → Text → Parsed → Archiver → ℕ × Archiver → Type 0
IsArchived sites first p s r =
    ((r.0 == 201) ≡ false)
    ⊎ ((elem first (map (λ site. site.name) sites) ≡ true)
        × (elem first r.1.requested_basebackup_sites ≡ true))
    ⊎ ((site : Site) × (filename : Text) × (find_site first sites ≡ some site)
        × ((p ≡ asked (some first) timeline (some filename)) ⊎ QueuedFile true site filename s r.1)
        × QueuedFile false site filename s r.1)
