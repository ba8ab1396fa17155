-- ===== src/Basebackup/Upload/Order.antt =====
-- `Upload.antt`: the results that are returned.
use pghoard.Base.{
  Bool, Bool-cases, List, Result, [], ap, arith, false, if◌then◌else◌, inl, inr, leb, length, ltb,
  ltb→lt, map, ok, ok-injective, raise, refl, suc, sym, true, zero, ℕ, ◌++◌, ◌+◌, ◌<◌, ◌>>=◌, ◌∙◌,
  ◌∷◌, ◌≡◌, ◌≤◌,
}
use mathlib.Core.Path.{subst}
use mathlib.Core.List.{append_assoc, map-append}
use pghoard.Basebackup.Upload.{
  Uploading, UploadEnd, finished, failed, waiting, out_of_fuel, pop_task, collect_oldest,
  wait_for_chunk_transfer, wait_then, submit_chunk, has_room, after_collect, upload_loop,
}

-- How many looks at the queue found a completed transfer.
unfoldable pub completed : List Bool → ℕ
completed [] = 0
completed (arrival ∷ arrivals) = if arrival then suc (completed arrivals) else completed arrivals

-- The results of the chunks below a number, in order, or the first exception.
unfoldable pub handle_in_order : {R : Type 0} → (ℕ → Result R) → ℕ → Result (List R)
handle_in_order handle_single_chunk zero = ok []
handle_in_order handle_single_chunk (suc n) = do
  chunk_files ← handle_in_order handle_single_chunk n
  chunk_file ← handle_single_chunk n
  ok (chunk_files ++ chunk_file ∷ [])

one_more : (n : ℕ) → suc n ≡ n + 1
one_more n = omega arith

module _ {R : Type 0} (handle_single_chunk : ℕ → Result R) where
  unfoldable pub tasks : ℕ → List (Result R)
  tasks zero = []
  tasks (suc n) = tasks n ++ handle_single_chunk n ∷ []

  -- The finished tasks and those that are pending are those of the chunks so far.
  unfoldable pub Submitted : Uploading R → Type 0
  Submitted st = map ok st.chunk_files ++ st.pending_compress_and_encrypt_tasks ≡ tasks st.i

  pop_task-Submitted :
      (st next : Uploading R) (pending : List (Result R))
      → pop_task st pending ≡ ok next
      → map ok st.chunk_files ++ pending ≡ tasks st.i
      → Submitted next × (next.i ≡ st.i) × (next.upload_results ≡ st.upload_results)
  unfolding pop_task Submitted
  pop_task-Submitted st next [] h k = cc
  pop_task-Submitted st next (raise error ∷ pending) h k = cc
  pop_task-Submitted st next (ok file ∷ pending) h k =
      subst
        (λ s.
          (map ok s.chunk_files ++ s.pending_compress_and_encrypt_tasks ≡ tasks s.i)
          × (s.i ≡ st.i)
          × (s.upload_results ≡ st.upload_results))
        (ok-injective h)
        (
          ap (λ files. files ++ pending) (map-append ok st.chunk_files (file ∷ []))
              ∙ append_assoc (map ok st.chunk_files) (ok file ∷ []) pending
              ∙ k,
          refl,
          refl,
        )

  collect_oldest-Submitted :
      (threads : ℕ) (st next : Uploading R)
      → collect_oldest threads st ≡ ok next
      → Submitted st
      → Submitted next × (next.i ≡ st.i) × (next.upload_results ≡ st.upload_results)
  unfolding collect_oldest
  collect_oldest-Submitted threads st next h k =
      elim (Bool-cases (leb threads (length st.pending_compress_and_encrypt_tasks))) [
        | inl e ↦
            pop_task-Submitted st next st.pending_compress_and_encrypt_tasks (sym (rw e refl) ∙ h)
              (unfold Submitted in k)
        | inr e ↦
            subst (λ s. Submitted s × (s.i ≡ st.i) × (s.upload_results ≡ st.upload_results))
              (ok-injective (sym (rw e refl) ∙ h)) (k, refl, refl)
      ]

  submit_chunk-Submitted :
      (st : Uploading R) → Submitted st → Submitted (submit_chunk handle_single_chunk st)
  unfolding Submitted submit_chunk tasks
  submit_chunk-Submitted st h =
      let next : tasks (suc st.i) ≡ tasks (st.i + 1) = ap tasks (one_more st.i) in
      sym (
        append_assoc (map ok st.chunk_files) st.pending_compress_and_encrypt_tasks
          (handle_single_chunk st.i ∷ []))
      ∙ ap (λ files. files ++ handle_single_chunk st.i ∷ []) h
      ∙ next

  module _ (chunk_count total : ℕ) where
    unfoldable pub Good : UploadEnd (Uploading R) → Type 0
    Good (finished st arrivals) =
        Submitted st × (st.i ≡ chunk_count) × (st.upload_results + completed arrivals ≤ total)
    Good (failed error) = Unit
    Good waiting = Unit
    Good out_of_fuel = Unit

    -- A loop that keeps what holds of its states.
    unfoldable pub Keeps : (List Bool → Uploading R → UploadEnd (Uploading R)) → Type 0
    Keeps loop =
        (arrivals : List Bool) (st : Uploading R)
        → Submitted st
        → st.i ≤ chunk_count
        → st.upload_results + completed arrivals ≤ total
        → Good (loop arrivals st)

    wait_then-Good :
        (loop : List Bool → Uploading R → UploadEnd (Uploading R)) (arrivals : List Bool)
        (st : Uploading R)
        → Keeps loop
        → Submitted st
        → st.i ≤ chunk_count
        → st.upload_results + completed arrivals ≤ total
        → Good (wait_then loop arrivals st)
    unfolding Keeps Good completed wait_for_chunk_transfer
    wait_then-Good loop [] st f s l c = tt
    wait_then-Good loop (true ∷ arrivals) st f s l c =
        elim (Bool-cases (ltb st.upload_results st.i)) [
          | inl e ↦ rw e (f arrivals _ (unfold Submitted in s) l (omega (arith, c)))
          | inr e ↦ rw e (f arrivals st s l (omega (arith, c)))
        ]
    wait_then-Good loop (false ∷ arrivals) st f s l c = f arrivals st s l c

    module _ (max_chunks_on_disk : ℕ) where
      after_collect-Good :
          (loop : List Bool → Uploading R → UploadEnd (Uploading R)) (arrivals : List Bool)
          (st : Uploading R) (r : Result (Uploading R))
          → Keeps loop
          → ((next : Uploading R)
              → r ≡ ok next
              → Submitted next × (next.i ≡ st.i) × (next.upload_results ≡ st.upload_results))
          → st.i < chunk_count
          → st.upload_results + completed arrivals ≤ total
          → Good (after_collect handle_single_chunk max_chunks_on_disk loop arrivals r)
      unfolding Good
      after_collect-Good loop arrivals st (raise error) f g l c = tt
      after_collect-Good loop arrivals st (ok next) f g l c =
          let (s, same, results) = g next refl in
          elim (Bool-cases (has_room max_chunks_on_disk next)) [
            | inl e ↦ rw e (
                unfold Keeps submit_chunk in
                f arrivals (submit_chunk handle_single_chunk next) (submit_chunk-Submitted next s)
                  (omega (arith, l, same)) (omega (arith, c, results)))
            | inr e ↦ rw e (
                wait_then-Good loop arrivals next f s (omega (arith, l, same))
                  (omega (arith, c, results)))
          ]

      pub upload_loop-Good :
          (threads fuel : ℕ)
          → Keeps (upload_loop handle_single_chunk max_chunks_on_disk threads chunk_count fuel)
      unfolding Keeps upload_loop Good
      upload_loop-Good threads zero arrivals st s l c = tt
      upload_loop-Good threads (suc fuel) arrivals st s l c =
          elim (Bool-cases (ltb st.i chunk_count)) [
            | inl e ↦ rw e (
                after_collect-Good
                  (upload_loop handle_single_chunk max_chunks_on_disk threads chunk_count fuel)
                  arrivals st (collect_oldest threads st) (upload_loop-Good threads fuel)
                  (λ next h. collect_oldest-Submitted threads st next h s)
                  (ltb→lt st.i chunk_count e) c)
            | inr e ↦ rw e (s, ground (arith, l, e), c)
          ]
