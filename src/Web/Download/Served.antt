-- ===== src/Web/Download/Served.antt =====
-- The files that `get_wal_or_timeline_file` of pghoard/webserver.py serves: a rename of a checked file.
use pghoard.Base.{
  Bool, Bool-cases, Error, Files, Option-cases, Result, Text, ap, codes, elem, false, inl, inr, not,
  ok, os_error, path_join, raise, refl, rename, set_file, some, text_eq, text_eq_refl, true, ◌&&◌,
  ◌==◌, ◌≡◌, ◌⊎◌,
}
use pghoard.Wal.Header.{verify_wal}
use pghoard.Web.Server.{
  Server, Answer, go_on, respond, fail, exists, read_file, rename_found, rename_checked,
}
use pghoard.Web.Download.{
  Request, then_do, verified, remember, serve_checked, serve, serve_found, serve_local,
  serve_from_disk,
}

-- The content is one that the check of a segment accepts, or no segment.
abbrev pub Checked : Text → Text → Text → Type 0
Checked filetype filename content =
    (text_eq filetype (codes "xlog") ≡ false) ⊎ (verify_wal filename (ok content) ≡ ok tt)

-- The target has a content that was checked for the file.
abbrev pub HasFile : Request → Text → Files → Type 0
HasFile r path files =
    (content : Text) × (files path ≡ some content) × Checked r.filetype r.filename content

-- A response of success has the file at the target.
unfoldable pub IsServed : Request → Text → Answer × Server → Type 0
IsServed r path (go_on, s) = Unit
IsServed r path (fail error, s) = Unit
IsServed r path (respond status, s) = ((status == 201) ≡ false) ⊎ HasFile r path s.files

Result-cases : {A : Type 0} (x : Result A) → ((a : A) × (x ≡ ok a)) ⊎ ((e : Error) × (x ≡ raise e))
Result-cases (ok a) = inl (a, refl)
Result-cases (raise e) = inr (e, refl)

verified-Checked :
    (filetype filename src content : Text) (files : Files)
    → files src ≡ some content
    → verified filetype filename src files ≡ ok tt
    → Checked filetype filename content
unfolding verified read_file
verified-Checked filetype filename src content files h =
    elim (Bool-cases (text_eq filetype (codes "xlog"))) [
      | inl e ↦ rw e (rw h (λ k. inr k))
      | inr e ↦ λ k. inl e
    ]

module _ (r : Request) (path : Text) where
  pub then_do-IsServed :
      (a : Answer × Server) (next : Server → Answer × Server)
      → IsServed r path a
      → ((s : Server) → IsServed r path (next s))
      → IsServed r path (then_do a next)
  unfolding IsServed
  then_do-IsServed (go_on, s) next h k = k s
  then_do-IsServed (respond status, s) next h k = h
  then_do-IsServed (fail error, s) next h k = tt

  -- A checked rename leaves a checked file.
  rename_checked-HasFile :
      (writable : Bool) (src : Text) (s : Server)
      → verified r.filetype r.filename src s.files ≡ ok tt
      → (rename_checked writable src path s ≡ (fail os_error, s))
        ⊎ ((s' : Server) × (rename_checked writable src path s ≡ (go_on, s'))
            × HasFile r path s'.files)
  unfolding rename_checked rename_found rename set_file
  rename_checked-HasFile false src s accepted = inl (elim (Option-cases (s.files src)) [
    | inl missing ↦ ap (λ o. rename_found o false src path s) missing
    | inr (content, there) ↦ ap (λ o. rename_found o false src path s) there
  ])
  rename_checked-HasFile true src s accepted = elim (Option-cases (s.files src)) [
    | inl missing ↦ inl (ap (λ o. rename_found o true src path s) missing)
    | inr (content, there) ↦ inr (
      record s { files = rename src path s.files },
      ap (λ o. rename_found o true src path s) there,
      (
        content,
        rw (text_eq_refl path) there,
        verified-Checked r.filetype r.filename src content s.files there accepted,
      ),
    )
  ]

  pub serve-IsServed :
      (src : Text) (s : Server) (next : Server → Answer × Server)
      → ((s' : Server) → HasFile r path s'.files → IsServed r path (next s'))
      → IsServed r path (then_do (serve r src path s) next)
  serve-IsServed src s next k = elim (Result-cases (verified r.filetype r.filename src s.files)) [
    | inr (e, raised) ↦
        let same : serve r src path s ≡ (fail e, s) =
          unfold serve serve_checked in ap (λ v. serve_checked v r src path s) raised in
        rw same (unfold IsServed in tt)
    | inl (u, accepted) ↦
        let same : serve r src path s ≡ rename_checked r.target.is_writable src path s =
          unfold serve serve_checked in ap (λ v. serve_checked v r src path s) accepted in
        rw same (elim (rename_checked-HasFile r.target.is_writable src s accepted) [
          | inl e ↦ rw e (unfold IsServed in tt)
          | inr (s', e, file) ↦ rw e (k s' file)
        ])
  ]

  serve_local-IsServed :
      (s : Server)
      → verified r.filetype r.filename (path_join r.xlog_dir r.filename) s.files ≡ ok tt
      → IsServed r path (serve_local r path s)
  unfolding serve_local IsServed remember
  serve_local-IsServed s accepted =
      elim (rename_checked-HasFile r.target.is_writable (path_join r.xlog_dir r.filename) s
        accepted) [ inl e ↦ rw e tt | inr (s', e, file) ↦ rw e (inr file) ]

  serve_found-raise : (e : Error) (s : Server) → IsServed r path (serve_found (raise e) r path s)
  unfolding serve_found IsServed
  serve_found-raise os_error s = tt
  serve_found-raise _ s = tt

  pub serve_from_disk-IsServed : (s : Server) → IsServed r path (serve_from_disk r path s)
  unfolding serve_from_disk IsServed
  serve_from_disk-IsServed s =
      let local = path_join r.xlog_dir r.filename in
      elim (Bool-cases (exists local s.files && not (elem r.filename s.served_from_disk))) [
        | inr n ↦ rw n tt
        | inl y ↦ rw y (elim (Result-cases (verified r.filetype r.filename local s.files)) [
          | inr (e, raised) ↦ rw raised (serve_found-raise e s)
          | inl (u, accepted) ↦ rw accepted (unfold serve_found in serve_local-IsServed s accepted)
        ])
      ]
