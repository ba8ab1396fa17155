-- ===== src/Restore/Fetcher.antt =====
-- `BasebackupFetcher` of pghoard/restore.py: the jobs that download the files of a backup, with
-- their retries. A job's key is a number; `retry_per_file` is a function that is 0 at a key that is
-- not in the dictionary. The process pool, the progress and its time limit are not modelled.
pub mod Refinement
use pghoard.Base.{
  Bool, List, [], if◌then◌else◌, length, ltb, member, with_member, without, ℕ, ◌&&◌, ◌+◌, ◌==◌,
  ◌||◌, ◌∷◌,
}

abbrev pub max_retries : ℕ
max_retries = 6

pub record Jobs : Type 0 where
  pub pending_jobs : List ℕ
  pub completed_jobs : List ℕ
  pub jobs_to_retry : List ℕ
  pub retry_per_file : ℕ → ℕ
  pub errors : ℕ

unfoldable pub set_at : ℕ → ℕ → (ℕ → ℕ) → ℕ → ℕ
set_at k n f i = if i == k then n else f i

-- A job that is pending is completed, and its entry in `retry_per_file` goes.
unfoldable pub complete : ℕ → Jobs → Jobs
unfolding set_at
complete key s = record s {
  pending_jobs = without key s.pending_jobs;
  completed_jobs = with_member key s.completed_jobs;
  retry_per_file = set_at key 0 s.retry_per_file;
}

unfoldable pub job_completed : ℕ → Jobs → Jobs
unfolding complete
job_completed key s = if member key s.pending_jobs then complete key s else s

-- The end of a job that is not tried again.
unfoldable pub give_up : ℕ → Jobs → Jobs
unfolding complete
give_up key s = record (complete key s) { errors = s.errors + 1 }

-- A recoverable error: the job is tried again, or given up at the last of its retries.
unfoldable pub recover : ℕ → Jobs → Jobs
unfolding set_at give_up
recover key s =
    if ltb (s.retry_per_file key + 1) max_retries
    then record s {
      pending_jobs = without key s.pending_jobs;
      jobs_to_retry = with_member key s.jobs_to_retry;
      retry_per_file = set_at key (s.retry_per_file key + 1) s.retry_per_file;
    }
    else give_up key s

-- `job_failed`; the flag says whether the exception is a MaybeRecoverableError.
unfoldable pub job_failed : ℕ → Bool → Jobs → Jobs
unfolding recover give_up
job_failed key recoverable s =
    if member key s.pending_jobs then (if recoverable then recover key s else give_up key s) else s

-- `_queue_jobs`: the files that are neither completed nor pending.
unfoldable pub queue_job : ℕ → Jobs → Jobs
queue_job key s =
    if member key s.completed_jobs || member key s.pending_jobs
    then s
    else record s { pending_jobs = with_member key s.pending_jobs }

unfoldable pub queue_jobs : List ℕ → Jobs → Jobs
unfolding queue_job
queue_jobs [] s = s
queue_jobs (key ∷ keys) s = queue_jobs keys (queue_job key s)

-- The jobs to retry that `_wait_for_jobs_to_complete` queues again.
unfoldable pub requeue_job : ℕ → Jobs → Jobs
requeue_job key s =
    if member key s.jobs_to_retry
    then record s {
      pending_jobs = with_member key s.pending_jobs;
      jobs_to_retry = without key s.jobs_to_retry;
    }
    else s

unfoldable pub requeue_jobs : List ℕ → Jobs → Jobs
unfolding requeue_job
requeue_jobs [] s = s
requeue_jobs (key ∷ keys) s = requeue_jobs keys (requeue_job key s)

-- `jobs_in_progress`, for the files of the backup
unfoldable pub jobs_in_progress : List ℕ → Jobs → Bool
jobs_in_progress data_files s = ltb (length s.completed_jobs) (length data_files)

-- What happens while the jobs are waited for.
pub data Event : Type 0 where
  completed : ℕ → Event
  failed : ℕ → Bool → Event
  requeued : ℕ → Event

-- The end of tar for a job: only an exit code of 2 with "Cannot open: No such file or directory" in
-- the output is a MaybeRecoverableError.
unfoldable pub event_of_tar : ℕ → ℕ → Bool → Event
event_of_tar key exit_code cannot_open =
    if exit_code == 0 then completed key else failed key (exit_code == 2 && cannot_open)

unfoldable pub handle : Event → Jobs → Jobs
unfolding job_completed job_failed requeue_job
handle (completed key) s = job_completed key s
handle (failed key recoverable) s = job_failed key recoverable s
handle (requeued key) s = requeue_job key s

unfoldable pub handle_all : List Event → Jobs → Jobs
unfolding handle
handle_all [] s = s
handle_all (e ∷ es) s = handle_all es (handle e s)
