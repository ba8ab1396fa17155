-- ===== src/Restore/Fetcher/Refinement.antt =====
-- The jobs of `BasebackupFetcher` of pghoard/restore.py, one by one.
use pghoard.Base.{
  Bool, Bool-cases, List, [], ap, arith, false, if◌then◌else◌, inl, inr, ltb, member,
  member-with_member, member-without, refl, true, ℕ, ◌&&◌, ◌+◌, ◌==◌, ◌∙◌, ◌∷◌, ◌≡◌,
}
use native.Mathlib.Decide.{ℕ_discrete}
use pghoard.Restore.Fetcher.{
  Jobs, set_at, complete, job_completed, give_up, recover, job_failed, requeue_job, Event,
  completed, failed, requeued, handle, handle_all,
}

-- Specification: a job by itself. A running or a waiting one has failed so many times.
pub data Job : Type 0 where
  unknown : Job
  running : ℕ → Job
  waiting : ℕ → Job
  done : Job

-- What an event does to the job that it is about: the sixth recoverable failure ends it.
unfoldable pub after_failure : ℕ → Job
after_failure n = if ltb (n + 1) 6 then waiting (n + 1) else done

unfoldable pub happen : Event → Job → Job
unfolding after_failure
happen (completed key) (running n) = done
happen (failed key true) (running n) = after_failure n
happen (failed key false) (running n) = done
happen (requeued key) (waiting n) = running n
happen _ j = j

abbrev pub key_of : Event → ℕ
key_of (completed key) = key
key_of (failed key recoverable) = key
key_of (requeued key) = key

unfoldable pub happen_to : ℕ → Event → Job → Job
unfolding happen
happen_to i e j = if i == key_of e then happen e j else j

unfoldable pub happen_all : ℕ → List Event → Job → Job
unfolding happen_to
happen_all i [] j = j
happen_all i (e ∷ es) j = happen_all i es (happen_to i e j)

-- The job of a key in the state of the fetcher.
unfoldable pub job : Jobs → ℕ → Job
job s i =
    if member i s.completed_jobs
    then done
    else if member i s.pending_jobs
    then running (s.retry_per_file i)
    else if member i s.jobs_to_retry
    then waiting (s.retry_per_file i)
    else unknown

-- No job is in two of the sets.
abbrev pub Exclusive : Jobs → Type 0
Exclusive s =
    (i : ℕ)
    → ((member i s.completed_jobs && member i s.pending_jobs) ≡ false)
      × ((member i s.completed_jobs && member i s.jobs_to_retry) ≡ false)
      × ((member i s.pending_jobs && member i s.jobs_to_retry) ≡ false)

complete-Exclusive :
    (key : ℕ) (s : Jobs)
    → member key s.pending_jobs ≡ true
    → Exclusive s
    → Exclusive (complete key s)
unfolding complete
complete-Exclusive key s p h i = ground (
  arith,
  member-without i key s.pending_jobs,
  member-with_member i key s.completed_jobs,
  h i,
  h key,
)

job-complete :
    (key i : ℕ) (s : Jobs)
    → member key s.pending_jobs ≡ true
    → Exclusive s
    → job (complete key s) i ≡ (if i == key then done else job s i)
unfolding job complete set_at
job-complete key i s p h = ground (
  arith,
  member-without i key s.pending_jobs,
  member-with_member i key s.completed_jobs,
  h i,
  h key,
)

-- What one event does: the sets stay exclusive, and each job goes as the specification says.
Refines : Event → Jobs → Jobs → Type 0
Refines e s s' = Exclusive s' × ((i : ℕ) → job s' i ≡ happen_to i e (job s i))

recover-Exclusive :
    (key : ℕ) (s : Jobs)
    → member key s.pending_jobs ≡ true
    → Exclusive s
    → Exclusive (recover key s)
unfolding recover give_up complete
recover-Exclusive key s p h i = ground (
  arith,
  member-without i key s.pending_jobs,
  member-with_member i key s.completed_jobs,
  member-with_member i key s.jobs_to_retry,
  h i,
  h key,
)

job-pending :
    (key : ℕ) (s : Jobs)
    → member key s.pending_jobs ≡ true
    → Exclusive s
    → job s key ≡ running (s.retry_per_file key)
unfolding job
job-pending key s p h = ground (arith, h key)

job-recover :
    (key i : ℕ) (s : Jobs)
    → member key s.pending_jobs ≡ true
    → Exclusive s
    → job (recover key s) i ≡ (if i == key then after_failure (s.retry_per_file key) else job s i)
unfolding recover give_up complete job set_at after_failure
job-recover key i s p h = ground (
  arith,
  member-without i key s.pending_jobs,
  member-with_member i key s.completed_jobs,
  member-with_member i key s.jobs_to_retry,
  h i,
  h key,
)

requeue_job-Exclusive : (key : ℕ) (s : Jobs) → Exclusive s → Exclusive (requeue_job key s)
unfolding requeue_job
requeue_job-Exclusive key s h i = ground (
  arith,
  member-with_member i key s.pending_jobs,
  member-without i key s.jobs_to_retry,
  h i,
  h key,
)

job-requeue_job :
    (key i : ℕ) (s : Jobs)
    → Exclusive s
    → job (requeue_job key s) i ≡ happen_to i (requeued key) (job s i)
unfolding requeue_job job happen_to happen
job-requeue_job key i s h = ground (
  arith,
  member-with_member i key s.pending_jobs,
  member-without i key s.jobs_to_retry,
  h i,
  h key,
)

-- A job that is not pending does not answer to the end of a download.
job_stays :
    (key : ℕ) (s : Jobs) (b : Bool)
    → member key s.pending_jobs ≡ false
    → (happen (completed key) (job s key) ≡ job s key)
      × (happen (failed key b) (job s key) ≡ job s key)
unfolding job happen
job_stays key s true h = ground (arith, h)
job_stays key s false h = ground (arith, h)

-- A state that is changed at one key only refines an event that changes the job of that key so.
changed_at :
    (e : Event) (f : ℕ → Job) (x : Job) (i : ℕ)
    → happen e (f (key_of e)) ≡ x
    → (if i == key_of e then x else f i) ≡ happen_to i e (f i)
unfolding happen_to
changed_at e f x i h = elim (ℕ_discrete i (key_of e)) [
  | yes q ↦ ground (arith, h, ap (λ k. happen e (f k)) q, q)
  | no n ↦ ground (arith, n)
]

unchanged_at :
    (e : Event) (f : ℕ → Job) (i : ℕ)
    → happen e (f (key_of e)) ≡ f (key_of e)
    → f i ≡ happen_to i e (f i)
unfolding happen_to
unchanged_at e f i h = elim (ℕ_discrete i (key_of e)) [
  | yes q ↦ ground (arith, h, ap (λ k. happen e (f k)) q, ap f q, q)
  | no n ↦ ground (arith, n)
]

completed-Refines :
    (key : ℕ) (s : Jobs) → Exclusive s → Refines (completed key) s (job_completed key s)
unfolding Refines job_completed happen
completed-Refines key s h = elim (Bool-cases (member key s.pending_jobs)) [
  | inl p ↦ rw p (
    complete-Exclusive key s p h,
    λ i.
        job-complete key i s p h
        ∙ changed_at (completed key) (job s) done i
            (ap (happen (completed key)) (job-pending key s p h)),
  )
  | inr p ↦ rw p (h, λ i. unchanged_at (completed key) (job s) i (job_stays key s true p).0)
]

give_up-Refines :
    (key : ℕ) (s : Jobs)
    → member key s.pending_jobs ≡ true
    → Exclusive s
    → Refines (failed key false) s (give_up key s)
unfolding Refines give_up happen job
give_up-Refines key s p h = (
  complete-Exclusive key s p h,
  λ i.
      job-complete key i s p h
      ∙ changed_at (failed key false) (job s) done i
          (ap (happen (failed key false)) (job-pending key s p h)),
)

recover-Refines :
    (key : ℕ) (s : Jobs)
    → member key s.pending_jobs ≡ true
    → Exclusive s
    → Refines (failed key true) s (recover key s)
unfolding Refines happen
recover-Refines key s p h = (
  recover-Exclusive key s p h,
  λ i.
      job-recover key i s p h
      ∙ changed_at (failed key true) (job s) (after_failure (s.retry_per_file key)) i
          (ap (happen (failed key true)) (job-pending key s p h)),
)

failed-Refines :
    (key : ℕ) (b : Bool) (s : Jobs) → Exclusive s → Refines (failed key b) s (job_failed key b s)
unfolding Refines job_failed
failed-Refines key true s h = elim (Bool-cases (member key s.pending_jobs)) [
  | inl p ↦ rw p (recover-Refines key s p h)
  | inr p ↦ rw p (h, λ i. unchanged_at (failed key true) (job s) i (job_stays key s true p).1)
]
failed-Refines key false s h = elim (Bool-cases (member key s.pending_jobs)) [
  | inl p ↦ rw p (give_up-Refines key s p h)
  | inr p ↦ rw p (h, λ i. unchanged_at (failed key false) (job s) i (job_stays key s false p).1)
]

handle-Refines : (e : Event) (s : Jobs) → Exclusive s → Refines e s (handle e s)
unfolding handle Refines
handle-Refines (completed key) s h = completed-Refines key s h
handle-Refines (failed key b) s h = failed-Refines key b s h
handle-Refines (requeued key) s h = (requeue_job-Exclusive key s h, λ i. job-requeue_job key i s h)

-- From exclusive sets, any sequence of completed and failed downloads and of renewed ones leaves
-- the sets exclusive, and the job of each key where the specification of a single job says.
pub handle_all_refines :
    (es : List Event) (s : Jobs)
    → Exclusive s
    → Exclusive (handle_all es s) × ((i : ℕ) → job (handle_all es s) i ≡ happen_all i es (job s i))
unfolding handle_all happen_all Refines
handle_all_refines [] s h = (h, λ i. refl)
handle_all_refines (e ∷ es) s h =
    let step = handle-Refines e s h in
    let rest = handle_all_refines es (handle e s) step.0 in
    (rest.0, λ i. rest.1 i ∙ ap (happen_all i es) (step.1 i))
