-- ===== src/Web/Download/Turns.antt =====
-- The turns of the loop in `get_wal_or_timeline_file` of pghoard/webserver.py.
use pghoard.Base.{
  Bool, Bool-cases, List, Option, Result, Text, [], codes, elem, false, if◌then◌else◌, inl, inr,
  leb, ltb, none, ok, raise, refl, some, starts_with_slash, suc, true, zero, ℕ, ◌&&◌, ◌+◌, ◌||◌,
  ◌∷◌,
}
use pghoard.Web.Server.{
  Server, go_on, respond, Wanted, exists, is_fresh, lookup_op, make_temporary, prefetch_path,
  create_fetch_operation,
}
use pghoard.Web.Prefetch.{prefetch_filenames, create_prefetch_operations}
use pghoard.Web.Prefetch.{fetch_names}
use pghoard.Web.Download.{forget}
use pghoard.Web.Download.{
  Target, validate_target_path, Request, Moment, remember, wanted, start_again, is_pending,
  replace_stale, keep_fetching, look, wait_for_file, fetch_and_wait,
}
use pghoard.Web.Download.Served.{IsServed, then_do-IsServed, serve-IsServed}

module _ (r : Request) (path : Text) where
  make_temporary-IsServed :
      (suppress_error : Bool) (now : ℕ) (mkstemp : Option Text) (w : Wanted) (s : Server)
      → IsServed r path (make_temporary suppress_error now mkstemp w s)
  unfolding make_temporary IsServed
  make_temporary-IsServed suppress_error now (some tmp) w s = tt
  make_temporary-IsServed true now none w s = tt
  make_temporary-IsServed false now none w s = inl refl

  pub create_fetch_operation-IsServed :
      (max_age : Option ℕ) (suppress_error : Bool) (now : ℕ) (mkstemp : Option Text) (w : Wanted)
      (s : Server)
      → IsServed r path (create_fetch_operation max_age suppress_error now mkstemp w s)
  unfolding create_fetch_operation
  create_fetch_operation-IsServed max_age suppress_error now mkstemp w s =
      elim (Bool-cases (
        is_fresh max_age now (lookup_op w.key s.pending_download_ops)
        || exists (prefetch_path w.xlog_dir w.obname) s.files)) [
          | inl y ↦ rw y (unfold IsServed in tt)
          | inr n ↦ rw n (make_temporary-IsServed suppress_error now mkstemp w s)
        ]

  start_again-IsServed :
      (m : Moment) (retries : ℕ) (s : Server) → IsServed r path (start_again m r retries s)
  unfolding start_again
  start_again-IsServed m zero s = unfold IsServed in inl refl
  start_again-IsServed m (suc retries) s =
      create_fetch_operation-IsServed none false m.now (m.mkstemp r.filename) (wanted r) s

  replace_stale-IsServed :
      (m : Moment) (last : ℕ) (s : Server) → IsServed r path (replace_stale m r last s)
  unfolding replace_stale
  replace_stale-IsServed m last s = elim (Bool-cases (leb (last + 1) m.now)) [
    | inl y ↦
        rw y (
          create_fetch_operation-IsServed (some 10) false m.now (m.mkstemp r.filename) (wanted r) s)
    | inr n ↦ rw n (unfold IsServed in tt)
  ]

  keep_fetching-IsServed :
      (m : Moment) (retries last : ℕ) (s : Server)
      → IsServed r path (keep_fetching m r retries last s)
  unfolding keep_fetching
  keep_fetching-IsServed m retries last s = elim (Bool-cases (elem (wanted r).key s.prefetch_404)) [
    | inl y ↦ rw y (unfold IsServed in inl refl)
    | inr n ↦ rw n (
        then_do-IsServed r path (if is_pending r s then (go_on, s) else start_again m r retries s)
          (replace_stale m r last)
          (elim (Bool-cases (is_pending r s)) [
            | inl p ↦ rw p (unfold IsServed in tt)
            | inr p ↦ rw p (start_again-IsServed m retries s)
          ])
          (replace_stale-IsServed m last))
  ]

  look-IsServed :
      (m : Moment) (retries last : ℕ) (s : Server) → IsServed r path (look m r path retries last s)
  unfolding look
  look-IsServed m retries last s =
      elim (Bool-cases (exists (prefetch_path r.xlog_dir r.filename) s.files)) [
        | inl y ↦ rw y (
            serve-IsServed r path (prefetch_path r.xlog_dir r.filename) s
              (λ s. (respond 201, remember r.filetype r.filename s))
              (λ s' file. unfold IsServed remember in inr file))
        | inr n ↦ rw n (keep_fetching-IsServed m retries last s)
      ]

  wait_for_file-IsServed :
      (start_time : ℕ) (turns : List (Moment × (Server → Server))) (retries last : ℕ) (s : Server)
      → IsServed r path (wait_for_file r path start_time retries last turns s)
  unfolding wait_for_file
  wait_for_file-IsServed start_time [] retries last s = unfold IsServed in inl refl
  wait_for_file-IsServed start_time ((m, others) ∷ turns) retries last s =
      elim (Bool-cases (leb m.now (start_time + 30))) [
        | inr late ↦ rw late (unfold IsServed in inl refl)
        | inl early ↦ rw early (
            then_do-IsServed r path (look m r path retries last s) _
              (look-IsServed m retries last s)
              (λ s'. wait_for_file-IsServed start_time turns _ _ (others s')))
      ]

  fetch_names-IsServed :
      (mkstemp : Text → Option Text) (now : ℕ) (names : Result (List Text)) (s : Server)
      → IsServed r path (fetch_names mkstemp now r.site r.xlog_dir r.filetype names s)
  unfolding fetch_names IsServed
  fetch_names-IsServed mkstemp now (ok names) s = tt
  fetch_names-IsServed mkstemp now (raise error) s = tt

  pub create_prefetch_operations-IsServed :
      (m : Moment) (prefetch_n : ℕ) (s : Server)
      → IsServed r path (
          create_prefetch_operations m.mkstemp m.now prefetch_n r.site r.xlog_dir r.filetype
            r.filename s)
  unfolding create_prefetch_operations
  create_prefetch_operations-IsServed m prefetch_n s =
      elim (Bool-cases
        (elem r.filetype (codes "timeline" ∷ codes "xlog" ∷ []) && ltb 0 prefetch_n)) [
          | inl y ↦ rw y (
              fetch_names-IsServed m.mkstemp m.now
                (prefetch_filenames prefetch_n r.xlog_dir r.filetype r.filename s.files) s)
          | inr n ↦ rw n (unfold IsServed in tt)
        ]

  pub fetch_and_wait-IsServed :
      (prefetch_n : ℕ) (m : Moment) (turns : List (Moment × (Server → Server))) (s : Server)
      → IsServed r path (fetch_and_wait prefetch_n m r path turns s)
  unfolding fetch_and_wait
  fetch_and_wait-IsServed prefetch_n m turns s =
      let s' : Server = record s { prefetch_404 = forget (wanted r).key s.prefetch_404 } in
      then_do-IsServed r path
        (create_fetch_operation (some 5) false m.now (m.mkstemp r.filename) (wanted r) s') _
        (create_fetch_operation-IsServed (some 5) false m.now (m.mkstemp r.filename) (wanted r) s')
        (λ s'.
          then_do-IsServed r path
            (create_prefetch_operations m.mkstemp m.now prefetch_n r.site r.xlog_dir r.filetype
              r.filename s')
            _ (create_prefetch_operations-IsServed m prefetch_n s')
            (wait_for_file-IsServed m.now turns 2 m.now))

  pub validate_target_path-IsServed :
      (target : Target) (s : Server) → IsServed r path (validate_target_path target path, s)
  unfolding validate_target_path IsServed
  validate_target_path-IsServed target s = elim (Bool-cases (starts_with_slash path)) [
    | inr n ↦ rw n (inl refl)
    | inl y ↦ elim (Bool-cases target.is_inside) [
      | inr n ↦ rw y (rw n (inl refl))
      | inl i ↦ elim (Bool-cases target.has_parent) [
        | inr n ↦ rw y (rw i (rw n (inl refl)))
        | inl p ↦ rw y (rw i (rw p tt))
      ]
    ]
  ]
