-- ===== src/Basebackup/Upload.antt =====
-- `create_and_upload_chunks` of pghoard/basebackup/chunks.py. `handle_single_chunk` is the outcome of
-- the task for the chunk of an index. `arrivals` are the looks at the queue of transfers in order:
-- whether a transfer had completed before the timeout, which counts only if a chunk is submitted
-- whose transfer has not completed. `chunks_on_disk` is the number of chunks that
-- are submitted less that of `upload_results`.
pub mod Order
pub mod Results
pub mod Ending
use pghoard.Base.{
  Bool, Error, List, Result, [], false, if◌then◌else◌, index_error, leb, length, ltb, ok, raise,
  suc, true, zero, ℕ, ◌++◌, ◌+◌, ◌>>=◌, ◌>>◌, ◌∷◌,
}

pub record Uploading (R : Type 0) : Type 0 where
  pub i : ℕ
  pub upload_results : ℕ
  pub pending_compress_and_encrypt_tasks : List (Result R)
  pub chunk_files : List R

-- How a loop ends: with a state and the arrivals that are left, by an exception of a task, or in the
-- wait for another arrival.
pub data UploadEnd (S : Type 0) : Type 0 where
  finished : S → List Bool → UploadEnd S
  failed : Error → UploadEnd S
  waiting out_of_fuel : UploadEnd S

abbrev pub nothing_submitted : {R : Type 0} → Uploading R
nothing_submitted = record {
  i = 0;
  upload_results = 0;
  pending_compress_and_encrypt_tasks = [];
  chunk_files = [];
}

module _ {R : Type 0} where
  -- `chunk_files.append(pending_compress_and_encrypt_tasks.pop(0).result())`
  unfoldable pub pop_task : Uploading R → List (Result R) → Result (Uploading R)
  pop_task st [] = raise index_error
  pop_task st (task_to_wait ∷ tasks) = do
    chunk_file ← task_to_wait
    ok (record st {
      pending_compress_and_encrypt_tasks = tasks;
      chunk_files = st.chunk_files ++ chunk_file ∷ [];
    })

  unfoldable pub collect_oldest : ℕ → Uploading R → Result (Uploading R)
  unfolding pop_task
  collect_oldest threads st =
      if leb threads (length st.pending_compress_and_encrypt_tasks)
      then pop_task st st.pending_compress_and_encrypt_tasks
      else ok st

  -- `wait_for_chunk_transfer_to_complete`
  unfoldable pub wait_for_chunk_transfer : Bool → Uploading R → Uploading R
  wait_for_chunk_transfer true st =
      if ltb st.upload_results st.i
      then record st { upload_results = st.upload_results + 1 }
      else st
  wait_for_chunk_transfer false st = st

  -- The results of the tasks that are left, in order.
  unfoldable pub collect_all : List (Result R) → List R → Result (List R)
  collect_all [] chunk_files = ok chunk_files
  collect_all (task ∷ tasks) chunk_files = do
    chunk_file ← task
    collect_all tasks (chunk_files ++ chunk_file ∷ [])

  abbrev pub wait_then :
      (List Bool → Uploading R → UploadEnd (Uploading R))
      → List Bool
      → Uploading R
      → UploadEnd (Uploading R)
  wait_then loop [] st = waiting
  wait_then loop (arrival ∷ arrivals) st = loop arrivals (wait_for_chunk_transfer arrival st)

  -- The last loop: until there are as many transfers as chunks.
  unfoldable pub wait_for_all : ℕ → List R → List Bool → UploadEnd (List R)
  wait_for_all upload_results chunk_files [] =
      if ltb upload_results (length chunk_files) then waiting else finished chunk_files []
  wait_for_all upload_results chunk_files (arrival ∷ arrivals) =
      let later =
        wait_for_all (if arrival then upload_results + 1 else upload_results) chunk_files
          arrivals in
      if ltb upload_results (length chunk_files)
      then later
      else finished chunk_files (arrival ∷ arrivals)

  abbrev pub then_wait : ℕ → List Bool → Result (List R) → UploadEnd (List R)
  then_wait upload_results arrivals (raise error) = failed error
  then_wait upload_results arrivals (ok chunk_files) =
      wait_for_all upload_results chunk_files arrivals

  -- After the loop: the tasks that are left, and the wait for all transfers.
  unfoldable pub finish_upload : UploadEnd (Uploading R) → UploadEnd (List R)
  unfolding collect_all wait_for_all
  finish_upload (finished st arrivals) =
      then_wait st.upload_results arrivals
        (collect_all st.pending_compress_and_encrypt_tasks st.chunk_files)
  finish_upload (failed error) = failed error
  finish_upload waiting = waiting
  finish_upload out_of_fuel = out_of_fuel

  -- `self.chunks_on_disk < max_chunks_on_disk`
  unfoldable pub has_room : ℕ → Uploading R → Bool
  has_room max_chunks_on_disk st = ltb st.i (max_chunks_on_disk + st.upload_results)

module _ {R : Type 0} (handle_single_chunk : ℕ → Result R) where
  unfoldable pub submit_chunk : Uploading R → Uploading R
  submit_chunk st = record st {
    i = st.i + 1;
    pending_compress_and_encrypt_tasks =
        st.pending_compress_and_encrypt_tasks ++ handle_single_chunk st.i ∷ [];
  }

  module _ (max_chunks_on_disk : ℕ) where
    abbrev pub after_collect :
        (List Bool → Uploading R → UploadEnd (Uploading R))
        → List Bool
        → Result (Uploading R)
        → UploadEnd (Uploading R)
    after_collect loop arrivals (raise error) = failed error
    after_collect loop arrivals (ok st) =
        if has_room max_chunks_on_disk st
        then loop arrivals (submit_chunk st)
        else wait_then loop arrivals st

    module _ (threads chunk_count : ℕ) where
      unfoldable pub upload_loop : ℕ → List Bool → Uploading R → UploadEnd (Uploading R)
      unfolding collect_oldest has_room submit_chunk wait_for_chunk_transfer
      upload_loop zero arrivals st = out_of_fuel
      upload_loop (suc fuel) arrivals st =
          if ltb st.i chunk_count
          then after_collect (upload_loop fuel) arrivals (collect_oldest threads st)
          else finished st arrivals

      -- Every round submits a chunk or looks at the queue.
      unfoldable pub create_and_upload_chunks : List Bool → UploadEnd (List R)
      unfolding upload_loop finish_upload
      create_and_upload_chunks arrivals =
          finish_upload (upload_loop (chunk_count + length arrivals + 1) arrivals nothing_submitted)
