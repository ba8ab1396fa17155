-- ===== src/Web/Download/Answers.antt =====
-- The answers of `get_wal_or_timeline_file` of pghoard/webserver.py.
use pghoard.Base.{
  Bool-cases, List, Text, [], false, inl, inr, refl, some, sym, text_eq, ℕ, ◌∷◌, ◌≡◌,
}
use pghoard.Web.Server.{Server, Answer, go_on, respond, fail, exists, prefetch_path}
use pghoard.Web.Prefetch.{create_prefetch_operations}
use pghoard.Web.Download.{get_to_header}
use mathlib.Core.Path.{subst}
use pghoard.Web.Download.{
  validate_target_path, Request, Moment, then_do, remember, serve_prefetched, serve_from_disk,
  get_to_path, get_wal_or_timeline_file,
}
use pghoard.Web.Download.Served.{
  IsServed, HasFile, then_do-IsServed, serve-IsServed, serve_from_disk-IsServed,
}
use pghoard.Web.Download.Turns.{
  create_prefetch_operations-IsServed, fetch_and_wait-IsServed, validate_target_path-IsServed,
}
use pghoard.Web.Download.Kept.{create_prefetch_operations-path}

module _ (prefetch_n : ℕ) (m : Moment) (r : Request) (path : Text) where
  after_ahead :
      (a : Answer × Server)
      → IsServed r path a
      → HasFile r path a.1.files
      → IsServed r path (then_do a (λ s. (respond 201, remember r.filetype r.filename s)))
  unfolding IsServed remember
  after_ahead (go_on, s) h file = inr file
  after_ahead (fail error, s) h file = tt
  after_ahead (respond status, s) h file = h

  get_to_path-IsServed :
      (turns : List (Moment × (Server → Server))) (s : Server)
      → ((name tmp : Text) → m.mkstemp name ≡ some tmp → text_eq path tmp ≡ false)
      → IsServed r path (get_to_path prefetch_n m r path turns s)
  unfolding get_to_path serve_prefetched
  get_to_path-IsServed turns s apart =
      then_do-IsServed r path (validate_target_path r.target path, s) _
        (validate_target_path-IsServed r path r.target s)
        (λ s. elim (Bool-cases (exists (prefetch_path r.xlog_dir r.filename) s.files)) [
          | inl y ↦ rw y (
              serve-IsServed r path (prefetch_path r.xlog_dir r.filename) s _ (λ s' file.
                after_ahead
                  (create_prefetch_operations m.mkstemp m.now prefetch_n r.site r.xlog_dir
                    r.filetype r.filename s')
                  (create_prefetch_operations-IsServed r path m prefetch_n s')
                  (rw
                    (create_prefetch_operations-path path m.mkstemp apart m.now prefetch_n r.site
                      r.xlog_dir r.filetype r.filename s')
                    file)))
          | inr n ↦ rw n (
              then_do-IsServed r path (serve_from_disk r path s) _
                (serve_from_disk-IsServed r path s)
                (fetch_and_wait-IsServed r path prefetch_n m turns))
        ])

get_to_header-IsServed :
    (prefetch_n : ℕ) (m : Moment) (r : Request) (path : Text)
    (turns : List (Moment × (Server → Server))) (s : Server)
    → ((name tmp : Text) → m.mkstemp name ≡ some tmp → text_eq path tmp ≡ false)
    → IsServed r path (get_to_header prefetch_n m r (some path) turns s)
unfolding get_to_header
get_to_header-IsServed prefetch_n m r [] turns s apart = unfold IsServed in inl refl
get_to_header-IsServed prefetch_n m r (c ∷ path) turns s apart =
    get_to_path-IsServed prefetch_n m r (c ∷ path) turns s apart

-- Whatever the other threads do between the looks at the files, where the check of a file and its
-- rename are one look: when the request for a file is
-- answered with the status 201, the requested path holds a file, and if it is a segment, then one
-- that passes the check under the name that was asked for. The temporary files of the request are
-- not at that path.
pub get_wal_or_timeline_file-IsServed :
    (prefetch_n : ℕ) (m : Moment) (r : Request) (path : Text)
    (turns : List (Moment × (Server → Server))) (s : Server)
    → r.target_path ≡ some path
    → ((name tmp : Text) → m.mkstemp name ≡ some tmp → text_eq path tmp ≡ false)
    → IsServed r path (get_wal_or_timeline_file prefetch_n m r turns s)
unfolding get_wal_or_timeline_file
get_wal_or_timeline_file-IsServed prefetch_n m r path turns s given apart =
    subst (λ o. IsServed r path (get_to_header prefetch_n m r o turns s)) (sym given)
      (get_to_header-IsServed prefetch_n m r path turns s apart)
