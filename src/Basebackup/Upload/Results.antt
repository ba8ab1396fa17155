-- ===== src/Basebackup/Upload/Results.antt =====
-- `Upload.antt`: the results of the tasks, in their order.
use pghoard.Base.{
  Bool, Bool-cases, List, Result, [], ap, arith, false, if◌then◌else◌, inl, inr, length,
  length-append, ltb, map, ok, ok-injective, raise, refl, suc, sym, true, zero, ℕ, ◌++◌, ◌+◌, ◌∙◌,
  ◌∷◌, ◌≡◌, ◌≤◌,
}
use mathlib.Core.Path.{subst}
use mathlib.Core.List.{append_assoc, append-nil, map-append}
use pghoard.Basebackup.Upload.{
  Uploading, UploadEnd, finished, failed, waiting, out_of_fuel, nothing_submitted, collect_all,
  wait_for_all, then_wait, finish_upload, upload_loop, create_and_upload_chunks,
}
use pghoard.Basebackup.Upload.Order.{
  completed, tasks, handle_in_order, Submitted, Good, Keeps, upload_loop-Good,
}

-- A list of results that ends in one.
last_of :
    {R : Type 0} (xs : List (Result R)) (y : Result R) (rs : List R)
    → xs ++ y ∷ [] ≡ map ok rs
    → (init : List R) × (r : R) × (rs ≡ init ++ r ∷ []) × (xs ≡ map ok init) × (y ≡ ok r)
last_of [] y [] h = cc
last_of [] y (r ∷ []) h = ([], r, refl, refl, cc)
last_of [] y (r ∷ s ∷ rs) h = cc
last_of (x ∷ xs) y [] h = cc
last_of (x ∷ xs) y (r ∷ rs) h =
    let (init, last, e, f, g) = last_of xs y rs (cc) in (r ∷ init, last, ap (λ zs. r ∷ zs) e, cc, g)

module _ {R : Type 0} where
  pub collect_all-ok :
      (pending : List (Result R)) (files rs : List R)
      → collect_all pending files ≡ ok rs
      → map ok files ++ pending ≡ map ok rs
  unfolding collect_all
  collect_all-ok [] files rs h = append-nil (map ok files) ∙ ap (map ok) (ok-injective h)
  collect_all-ok (raise error ∷ pending) files rs h = cc
  collect_all-ok (ok file ∷ pending) files rs h =
      sym (
        ap (λ fs. fs ++ pending) (map-append ok files (file ∷ []))
        ∙ append_assoc (map ok files) (ok file ∷ []) pending)
      ∙ collect_all-ok pending (files ++ file ∷ []) rs h

  pub tasks-ok :
      (handle_single_chunk : ℕ → Result R) (n : ℕ) (rs : List R)
      → tasks handle_single_chunk n ≡ map ok rs
      → (handle_in_order handle_single_chunk n ≡ ok rs) × (length rs ≡ n)
  unfolding tasks handle_in_order
  tasks-ok handle_single_chunk zero [] h = (refl, refl)
  tasks-ok handle_single_chunk zero (r ∷ rs) h = cc
  tasks-ok handle_single_chunk (suc n) rs h =
      let (init, r, e, f, g) = last_of (tasks handle_single_chunk n) (handle_single_chunk n) rs h in
      let (before, count) = tasks-ok handle_single_chunk n init f in
      (
        rw before (rw g (ap ok (sym e))),
        ap length e ∙ length-append init (r ∷ []) ∙ omega (arith, count),
      )

  wait_for_all-finished :
      (arrivals left : List Bool) (upload_results : ℕ) (files rs : List R)
      → wait_for_all upload_results files arrivals ≡ finished rs left
      → (rs ≡ files) × (length files ≤ upload_results + completed arrivals)
  unfolding wait_for_all completed
  wait_for_all-finished [] left n files rs h = elim (Bool-cases (ltb n (length files))) [
    | inl e ↦ let stuck : waiting ≡ finished rs left = sym (rw e refl) ∙ h in cc
    | inr e ↦
        let ended : finished files [] ≡ finished rs left = sym (rw e refl) ∙ h in
        (cc, ground (arith, e))
  ]
  wait_for_all-finished (arrival ∷ arrivals) left n files rs h =
      elim (Bool-cases (ltb n (length files))) [
        | inl e ↦
            let (same, enough) =
              wait_for_all-finished arrivals left (if arrival then n + 1 else n) files rs
                (sym (rw e refl) ∙ h) in
            (same, counted arrival enough)
        | inr e ↦
            let ended : finished files (arrival ∷ arrivals) ≡ finished rs left =
              sym (rw e refl) ∙ h in
            (cc, ground (arith, e))
      ]
    where
      counted :
          (a : Bool)
          → length files ≤ (if a then n + 1 else n) + completed arrivals
          → length files ≤ n + (if a then suc (completed arrivals) else completed arrivals)
      counted true k = omega (arith, k)
      counted false k = k

  then_wait-finished :
      (n : ℕ) (arrivals left : List Bool) (r : Result (List R)) (rs : List R)
      → then_wait n arrivals r ≡ finished rs left
      → (r ≡ ok rs) × (length rs ≤ n + completed arrivals)
  then_wait-finished n arrivals left (raise error) rs h = cc
  then_wait-finished n arrivals left (ok files) rs h =
      let (same, enough) = wait_for_all-finished arrivals left n files rs h in
      (ap ok (sym same), subst (λ fs. length fs ≤ n + completed arrivals) (sym same) enough)

  finish_upload-Good :
      (handle_single_chunk : ℕ → Result R) (chunk_count total : ℕ) (ended : UploadEnd (Uploading R))
      (rs : List R) (left : List Bool)
      → Good handle_single_chunk chunk_count total ended
      → finish_upload ended ≡ finished rs left
      → (handle_in_order handle_single_chunk chunk_count ≡ ok rs) × (chunk_count ≤ total)
  unfolding Good finish_upload Submitted
  finish_upload-Good handle_single_chunk chunk_count total (failed error) rs left g h = cc
  finish_upload-Good handle_single_chunk chunk_count total waiting rs left g h = cc
  finish_upload-Good handle_single_chunk chunk_count total out_of_fuel rs left g h = cc
  finish_upload-Good handle_single_chunk chunk_count total (finished st arrivals) rs left
        (s, at_end, c) h =
      let (all_ok, enough) =
        then_wait-finished st.upload_results arrivals left
          (collect_all st.pending_compress_and_encrypt_tasks st.chunk_files) rs h in
      let in_order =
        sym s ∙ collect_all-ok st.pending_compress_and_encrypt_tasks st.chunk_files rs all_ok in
      let (results, count) = tasks-ok handle_single_chunk st.i rs in_order in
      (
        ap (handle_in_order handle_single_chunk) (sym at_end) ∙ results,
        omega (arith, count, at_end, enough, c),
      )

-- When the upload of the chunks returns, its result is that of the chunks in their order, none of
-- them has raised an exception, and a transfer has completed for each of them, whatever the times at
-- which transfers complete.
pub create_and_upload_chunks_in_order :
    {R : Type 0} (handle_single_chunk : ℕ → Result R) (threads max_chunks_on_disk chunk_count : ℕ)
    (arrivals left : List Bool) (chunk_files : List R)
    → create_and_upload_chunks handle_single_chunk max_chunks_on_disk threads chunk_count arrivals
      ≡ finished chunk_files left
    → (handle_in_order handle_single_chunk chunk_count ≡ ok chunk_files)
      × (chunk_count ≤ completed arrivals)
unfolding create_and_upload_chunks Keeps
create_and_upload_chunks_in_order handle threads max_chunks_on_disk chunk_count arrivals left
      chunk_files h =
    finish_upload-Good handle chunk_count (completed arrivals)
      (upload_loop handle max_chunks_on_disk threads chunk_count (chunk_count + length arrivals + 1)
        arrivals nothing_submitted)
      chunk_files left
      (upload_loop-Good handle chunk_count (completed arrivals) max_chunks_on_disk threads
        (chunk_count + length arrivals + 1) arrivals nothing_submitted
        (unfold Submitted tasks in refl) (omega arith) (omega arith))
      h
