-- ===== src/Web/Download/Kept.antt =====
-- What the operations that fetch ahead in pghoard/webserver.py do to the other files.
use pghoard.Base.{
  Bool, Bool-cases, List, Option, Option-cases, Result, Text, [], codes, elem, false, inl, inr, ltb,
  none, ok, raise, refl, set_file, some, text_eq, true, ℕ, ◌&&◌, ◌||◌, ◌∙◌, ◌∷◌, ◌≡◌,
}
use pghoard.Web.Server.{
  Server, Wanted, exists, is_fresh, lookup_op, make_temporary, start_fetch, prefetch_path,
  create_fetch_operation,
}
use pghoard.Web.Prefetch.{
  fetch_ahead, make_file_key, prefetch_filenames, create_prefetch_operations,
}
use pghoard.Web.Prefetch.{fetch_names}

module _ (path : Text) (mkstemp : Text → Option Text)
    (apart : (name tmp : Text) → mkstemp name ≡ some tmp → text_eq path tmp ≡ false) where
  make_temporary-path :
      (suppress_error : Bool) (now : ℕ) (name : Text) (w : Wanted) (s : Server)
      → (make_temporary suppress_error now (mkstemp name) w s).1.files path ≡ s.files path
  unfolding make_temporary start_fetch set_file
  make_temporary-path suppress_error now name w s = elim (Option-cases (mkstemp name)) [
    | inl e ↦ rw e refl
    | inr (tmp, e) ↦ rw e (rw (apart name tmp e) refl)
  ]

  create_fetch_operation-path :
      (max_age : Option ℕ) (suppress_error : Bool) (now : ℕ) (name : Text) (w : Wanted) (s : Server)
      → (create_fetch_operation max_age suppress_error now (mkstemp name) w s).1.files path
        ≡ s.files path
  unfolding create_fetch_operation
  create_fetch_operation-path max_age suppress_error now name w s =
      elim (Bool-cases (
        is_fresh max_age now (lookup_op w.key s.pending_download_ops)
        || exists (prefetch_path w.xlog_dir w.obname) s.files)) [
          | inl y ↦ rw y refl
          | inr n ↦ rw n (make_temporary-path suppress_error now name w s)
        ]

  fetch_ahead-path :
      (now : ℕ) (site xlog_dir filetype : Text) (names : List Text) (s : Server)
      → (fetch_ahead mkstemp now site xlog_dir filetype names s).files path ≡ s.files path
  unfolding fetch_ahead
  fetch_ahead-path now site xlog_dir filetype [] s = refl
  fetch_ahead-path now site xlog_dir filetype (name ∷ names) s =
      fetch_ahead-path now site xlog_dir filetype names _
      ∙ elim (Bool-cases (elem (make_file_key site filetype name) s.prefetch_404)) [
        | inl y ↦ rw y refl
        | inr n ↦ rw n (
            create_fetch_operation-path none true now name
              (record {
                key = make_file_key site filetype name;
                xlog_dir = xlog_dir;
                filetype = filetype;
                obname = name;
              })
              s)
      ]

  fetch_names-path :
      (now : ℕ) (site xlog_dir filetype : Text) (names : Result (List Text)) (s : Server)
      → (fetch_names mkstemp now site xlog_dir filetype names s).1.files path ≡ s.files path
  unfolding fetch_names
  fetch_names-path now site xlog_dir filetype (ok names) s =
      fetch_ahead-path now site xlog_dir filetype names s
  fetch_names-path now site xlog_dir filetype (raise error) s = refl

  pub create_prefetch_operations-path :
      (now prefetch_n : ℕ) (site xlog_dir filetype filename : Text) (s : Server)
      → (create_prefetch_operations mkstemp now prefetch_n site xlog_dir filetype filename
            s).1.files
          path
        ≡ s.files path
  unfolding create_prefetch_operations
  create_prefetch_operations-path now prefetch_n site xlog_dir filetype filename s =
      elim (Bool-cases (elem filetype (codes "timeline" ∷ codes "xlog" ∷ []) && ltb 0 prefetch_n)) [
        | inl y ↦ rw y (
            fetch_names-path now site xlog_dir filetype
              (prefetch_filenames prefetch_n xlog_dir filetype filename s.files) s)
        | inr n ↦ rw n refl
      ]
