-- ===== src/Basebackup/Upload/Ending.antt =====
-- `Upload.antt`: the upload of chunks that are all handled.
use pghoard.Base.{
  All, All-append, Bool, Bool-cases, List, Result, [], ap, arith, false, if◌then◌else◌, inl, inr,
  leb, length, ltb, ok, refl, suc, sym, true, zero, ℕ, ◌++◌, ◌+◌, ◌<◌, ◌∙◌, ◌∷◌, ◌≡◌, ◌≤◌,
}
use mathlib.Core.Path.{subst}
use pghoard.Basebackup.Upload.{
  Uploading, UploadEnd, finished, nothing_submitted, pop_task, collect_oldest,
  wait_for_chunk_transfer, collect_all, wait_then, wait_for_all, finish_upload, submit_chunk,
  has_room, after_collect, upload_loop, create_and_upload_chunks,
}
use pghoard.Basebackup.Upload.Order.{completed, tasks, Submitted, Good, Keeps, upload_loop-Good}
use pghoard.Basebackup.Upload.Results.{collect_all-ok, tasks-ok}

abbrev Succeeds : {A : Type 0} → Result A → Type 0
Succeeds {A = A} r = (a : A) × (r ≡ ok a)

-- The loop is left, with no exception among the pending tasks, and with enough transfers to come.
Finishes : {R : Type 0} → ℕ → UploadEnd (Uploading R) → Type 0
Finishes {R = R} chunk_count ended =
    (st : Uploading R) × (left : List Bool) × (ended ≡ finished st left)
    × All Succeeds st.pending_compress_and_encrypt_tasks
    × (chunk_count ≤ st.upload_results + completed left)

module _ {R : Type 0} (handle_single_chunk : ℕ → Result R)
    (threads max_chunks_on_disk chunk_count : ℕ)
    (handled : (k : ℕ) → Succeeds (handle_single_chunk k)) (some_thread : 1 ≤ threads)
    (some_chunk : 1 ≤ max_chunks_on_disk) where
  -- A state in which no task fails and enough transfers are to come.
  Live : List Bool → Uploading R → Type 0
  Live arrivals st =
      All Succeeds st.pending_compress_and_encrypt_tasks
      × (chunk_count ≤ st.upload_results + completed arrivals)

  Leads : ℕ → (List Bool → Uploading R → UploadEnd (Uploading R)) → Type 0
  Leads fuel loop =
      (arrivals : List Bool) (st : Uploading R)
      → Live arrivals st
      → st.i ≤ chunk_count
      → chunk_count + length arrivals < fuel + st.i
      → Finishes chunk_count (loop arrivals st)

  pop_task-Succeeds :
      (st : Uploading R) (pending : List (Result R))
      → 1 ≤ length pending
      → All Succeeds pending
      → (next : Uploading R) × (pop_task st pending ≡ ok next)
        × (next.i ≡ st.i)
        × (next.upload_results ≡ st.upload_results)
        × All Succeeds next.pending_compress_and_encrypt_tasks
  unfolding pop_task
  pop_task-Succeeds st [] l h = ground (arith, l)
  pop_task-Succeeds st (task ∷ pending) l ((file, e), rest) = (
    record st {
      pending_compress_and_encrypt_tasks = pending;
      chunk_files = st.chunk_files ++ file ∷ [];
    },
    rw e refl,
    refl,
    refl,
    rest,
  )

  collect_oldest-Succeeds :
      (st : Uploading R)
      → All Succeeds st.pending_compress_and_encrypt_tasks
      → (next : Uploading R) × (collect_oldest threads st ≡ ok next)
        × (next.i ≡ st.i)
        × (next.upload_results ≡ st.upload_results)
        × All Succeeds next.pending_compress_and_encrypt_tasks
  unfolding collect_oldest
  collect_oldest-Succeeds st h =
      elim (Bool-cases (leb threads (length st.pending_compress_and_encrypt_tasks))) [
        | inl e ↦ rw e (
            pop_task-Succeeds st st.pending_compress_and_encrypt_tasks
              (ground (arith, some_thread, e)) h)
        | inr e ↦ rw e (st, refl, refl, refl, h)
      ]

  wait_then-Finishes :
      (fuel : ℕ) (loop : List Bool → Uploading R → UploadEnd (Uploading R)) (arrivals : List Bool)
      (st : Uploading R)
      → Leads fuel loop
      → Live arrivals st
      → st.i < chunk_count
      → has_room max_chunks_on_disk st ≡ false
      → chunk_count + length arrivals < suc fuel + st.i
      → Finishes chunk_count (wait_then loop arrivals st)
  unfolding Leads Live completed has_room wait_for_chunk_transfer
  wait_then-Finishes fuel loop [] st f (p, c) l full m = ground (arith, c, l, full)
  wait_then-Finishes fuel loop (true ∷ arrivals) st f (p, c) l full m =
      let on_its_way : ltb st.upload_results st.i ≡ true = ground (arith, full, some_chunk) in
      rw on_its_way (f arrivals _ (p, omega (arith, c)) (omega (arith, l)) (omega (arith, m)))
  wait_then-Finishes fuel loop (false ∷ arrivals) st f (p, c) l full m =
      f arrivals st (p, c) (omega (arith, l)) (omega (arith, m))

  submit_chunk-Live :
      (arrivals : List Bool) (st : Uploading R)
      → Live arrivals st
      → Live arrivals (submit_chunk handle_single_chunk st)
  unfolding Live submit_chunk
  submit_chunk-Live arrivals st (p, c) = (
    All-append Succeeds st.pending_compress_and_encrypt_tasks (handle_single_chunk st.i ∷ []) p
        (handled st.i, tt),
    c,
  )

  after_collect-Finishes :
      (fuel : ℕ) (loop : List Bool → Uploading R → UploadEnd (Uploading R)) (arrivals : List Bool)
      (st : Uploading R)
      → Leads fuel loop
      → Live arrivals st
      → st.i < chunk_count
      → chunk_count + length arrivals < suc fuel + st.i
      → Finishes chunk_count
          (after_collect handle_single_chunk max_chunks_on_disk loop arrivals (ok st))
  unfolding Leads
  after_collect-Finishes fuel loop arrivals st f live l m =
      elim (Bool-cases (has_room max_chunks_on_disk st)) [
        | inl e ↦ rw e (
            unfold submit_chunk in
            f arrivals (submit_chunk handle_single_chunk st) (submit_chunk-Live arrivals st live)
              (omega (arith, l)) (omega (arith, m)))
        | inr e ↦ rw e (wait_then-Finishes fuel loop arrivals st f live l e m)
      ]

  upload_loop-Finishes :
      (fuel : ℕ)
      → Leads fuel (upload_loop handle_single_chunk max_chunks_on_disk threads chunk_count fuel)
  unfolding Leads upload_loop Finishes Live
  upload_loop-Finishes zero arrivals st (p, c) l m = ground (arith, l, m)
  upload_loop-Finishes (suc fuel) arrivals st (p, c) l m =
      elim (Bool-cases (ltb st.i chunk_count)) [
        | inl e ↦
            let (next, collected, same, results, q) = collect_oldest-Succeeds st p in
            rw e (
              rw collected (
                after_collect-Finishes fuel
                  (upload_loop handle_single_chunk max_chunks_on_disk threads chunk_count fuel)
                  arrivals next (upload_loop-Finishes fuel) (q, omega (arith, c, results))
                  (ground (arith, e, same)) (omega (arith, m, same))))
        | inr e ↦ rw e (st, arrivals, refl, p, c)
      ]

  collect_all-Succeeds :
      (pending : List (Result R)) (files : List R)
      → All Succeeds pending
      → Succeeds (collect_all pending files)
  unfolding collect_all
  collect_all-Succeeds [] files h = (files, refl)
  collect_all-Succeeds (task ∷ pending) files h =
      let ((file, e), rest) = h in rw e (collect_all-Succeeds pending (files ++ file ∷ []) rest)

  wait_for_all_returns :
      (arrivals : List Bool) (n : ℕ) (files : List R)
      → length files ≤ n + completed arrivals
      → (left : List Bool) × (wait_for_all n files arrivals ≡ finished files left)
  unfolding wait_for_all completed
  wait_for_all_returns [] n files h = elim (Bool-cases (ltb n (length files))) [
    | inl e ↦ ground (arith, e, h)
    | inr e ↦ rw e ([], refl)
  ]
  wait_for_all_returns (arrival ∷ arrivals) n files h = elim (Bool-cases (ltb n (length files))) [
    | inl e ↦
        rw e
          (wait_for_all_returns arrivals (if arrival then n + 1 else n) files (ground (arith, h)))
    | inr e ↦ rw e (arrival ∷ arrivals, refl)
  ]

  finish_upload_returns :
      (total : ℕ) (ended : UploadEnd (Uploading R))
      → Finishes chunk_count ended
      → Good handle_single_chunk chunk_count total ended
      → (files : List R) × (left : List Bool) × (finish_upload ended ≡ finished files left)
  unfolding Finishes Good Submitted
  finish_upload_returns total ended (st, left, e, p, enough) g =
      let (s, at_end, c) : Good handle_single_chunk chunk_count total (finished st left) =
        subst (Good handle_single_chunk chunk_count total) e g in
      let (files, all_ok) =
        collect_all-Succeeds st.pending_compress_and_encrypt_tasks st.chunk_files p in
      let in_order =
        sym s ∙ collect_all-ok st.pending_compress_and_encrypt_tasks st.chunk_files files all_ok in
      let (results, count) = tasks-ok handle_single_chunk st.i files in_order in
      let (rest, waited) =
        wait_for_all_returns left st.upload_results files (omega (arith, enough, count, at_end)) in
      (files, rest, ap finish_upload e ∙ unfold finish_upload in (rw all_ok waited))

-- The upload of chunks that can all be handled returns if as many completed transfers come as there
-- are chunks, with at least one thread and room for at least one chunk on disk: it neither waits for
-- the transfer of a chunk that is not submitted nor runs out of rounds.
pub create_and_upload_chunks_ends :
    {R : Type 0} (handle_single_chunk : ℕ → Result R) (threads max_chunks_on_disk chunk_count : ℕ)
    (arrivals : List Bool)
    → ((k : ℕ) → (file : R) × (handle_single_chunk k ≡ ok file))
    → 1 ≤ threads
    → 1 ≤ max_chunks_on_disk
    → chunk_count ≤ completed arrivals
    → (files : List R) × (left : List Bool) × (create_and_upload_chunks handle_single_chunk
          max_chunks_on_disk threads chunk_count arrivals
        ≡ finished files left)
unfolding create_and_upload_chunks Keeps
create_and_upload_chunks_ends handle threads max_chunks_on_disk chunk_count arrivals handled
      some_thread some_chunk enough =
    let fuel = chunk_count + length arrivals + 1 in
    finish_upload_returns handle threads max_chunks_on_disk chunk_count handled some_thread
      some_chunk (completed arrivals)
      (upload_loop handle max_chunks_on_disk threads chunk_count fuel arrivals nothing_submitted)
      (unfold Leads Live in
        upload_loop-Finishes handle threads max_chunks_on_disk chunk_count handled some_thread
          some_chunk fuel arrivals nothing_submitted (tt, omega (arith, enough)) (omega arith)
          (omega arith))
      (upload_loop-Good handle chunk_count (completed arrivals) max_chunks_on_disk threads fuel
        arrivals nothing_submitted (unfold Submitted tasks in refl) (omega arith) (omega arith))
