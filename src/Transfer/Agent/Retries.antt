-- ===== src/Transfer/Agent/Retries.antt =====
-- What becomes of the uploads in the queue of `TransferAgent` of pghoard/transfer.py.
use pghoard.Base.{
  All, All-append, Bool, Bool-cases, Error, List, Option, Result, Text, [], ap, arith,
  if◌then◌else◌, inl, inr, leb, min, none, ok, raise, refl, some, suc, sym, zero, ℕ, ◌*◌, ◌++◌, ◌+◌,
  ◌-◌, ◌<◌, ◌^◌, ◌∙◌, ◌∷◌, ◌≡◌, ◌≤◌,
}
use mathlib.Core.Path.{subst}
use pghoard.Transfer.Agent.{
  UploadEvent, Agent, retry_sleep, again, after_failure, after_store, round_from, rounds,
}

-- How many events satisfy a test of the site and the path of the file.
unfoldable pub counted : (Text → Text → Bool) → List UploadEvent → ℕ
counted p [] = 0
counted p (u ∷ us) = (if p u.backup_site_name u.file_path then 1 else 0) + counted p us

counted-append :
    (p : Text → Text → Bool) (us vs : List UploadEvent)
    → counted p (us ++ vs) ≡ counted p us + counted p vs
unfolding counted
counted-append p [] vs = omega arith
counted-append p (u ∷ us) vs = omega (arith, counted-append p us vs)

counted-last :
    (p : Text → Text → Bool) (us : List UploadEvent) (u : UploadEvent)
    → counted p (us ++ u ∷ []) ≡ (if p u.backup_site_name u.file_path then 1 else 0) + counted p us
unfolding counted
counted-last p us u = omega (arith, counted-append p us (u ∷ []))

abbrev held : Option UploadEvent → List UploadEvent
held none = []
held (some u) = u ∷ []

module _ {S : Type 0} where
  abbrev pub events : (Text → Text → Bool) → Agent S → ℕ
  events p a = counted p a.transfer_queue + counted p a.finished + counted p (held a.lost)

  events-after_failure :
      (p : Text → Text → Bool) (u : UploadEvent) (rest : List UploadEvent) (a : Agent S) (s : S)
      (time : Result ℕ)
      → a.lost ≡ none
      → events p (after_failure u rest a s time)
        ≡ (if p u.backup_site_name u.file_path then 1 else 0)
          + counted p rest
          + counted p a.finished
  unfolding after_failure again counted
  events-after_failure p u rest a s (ok time) e =
      omega (arith, counted-last p rest (again u), ap (λ l. counted p (held l)) e)
  events-after_failure p u rest a s (raise ex) e = omega arith

module _ {S : Type 0} (store : S → UploadEvent → Option Error × S)
    (unlink_local : S → UploadEvent → S) where
  events-after_store :
      (p : Text → Text → Bool) (u : UploadEvent) (rest : List UploadEvent) (a : Agent S)
      (r : Option Error × S)
      → a.lost ≡ none
      → events p (after_store store unlink_local u rest a r)
        ≡ (if p u.backup_site_name u.file_path then 1 else 0)
          + counted p rest
          + counted p a.finished
  unfolding after_store counted
  events-after_store p u rest a (none, s) e =
      omega (arith, counted-last p a.finished u, ap (λ l. counted p (held l)) e)
  events-after_store p u rest a (some ex, s) e =
      events-after_failure p u rest a s (retry_sleep (u.retry_number + 1)) e

  events-round_from :
      (p : Text → Text → Bool) (lost : Option UploadEvent) (queue : List UploadEvent) (a : Agent S)
      → a.lost ≡ lost
      → a.transfer_queue ≡ queue
      → events p (round_from store unlink_local lost queue a) ≡ events p a
  unfolding round_from counted
  events-round_from p (some u) queue a l e = refl
  events-round_from p none [] a l e = refl
  events-round_from p none (u ∷ rest) a l e = omega (
    arith,
    events-after_store p u rest a (store a.outside u) l,
    ap (counted p) e,
    ap (λ o. counted p (held o)) l,
  )

  -- An upload that the store has answered with success.
  abbrev pub IsUploaded : UploadEvent → Type 0
  IsUploaded u = (before : S) × (after : S) × (store before u ≡ (none, after))

  -- The thread has ended, if so, at an upload that was tried again 1024 times.
  abbrev pub IsAtLimit : Option UploadEvent → Type 0
  IsAtLimit none = Unit
  IsAtLimit (some u) = 1024 ≤ u.retry_number

  abbrev AreUploaded : Agent S → Type 0
  AreUploaded a = All IsUploaded a.finished × IsAtLimit a.lost

  after_failure-Uploaded :
      (u : UploadEvent) (rest : List UploadEvent) (a : Agent S) (s : S)
      → AreUploaded a
      → AreUploaded (after_failure u rest a s (retry_sleep (u.retry_number + 1)))
  unfolding retry_sleep after_failure
  after_failure-Uploaded u rest a s (h, l) = elim (Bool-cases (leb (u.retry_number + 1) 1024)) [
    | inl e ↦ rw e (h, l)
    | inr e ↦ rw e (h, ground (arith, e))
  ]

  after_store-Uploaded :
      (u : UploadEvent) (rest : List UploadEvent) (a : Agent S) (r : Option Error × S)
      → store a.outside u ≡ r
      → AreUploaded a
      → AreUploaded (after_store store unlink_local u rest a r)
  unfolding after_store
  after_store-Uploaded u rest a (none, s) e (h, l) =
      (All-append IsUploaded a.finished (u ∷ []) h ((a.outside, s, e), tt), l)
  after_store-Uploaded u rest a (some ex, s) e h = after_failure-Uploaded u rest a s h

  round_from-Uploaded :
      (lost : Option UploadEvent) (queue : List UploadEvent) (a : Agent S)
      → a.lost ≡ lost
      → All IsUploaded a.finished
      → IsAtLimit a.lost
      → AreUploaded (round_from store unlink_local lost queue a)
  unfolding round_from
  round_from-Uploaded (some u) queue a e h l = (h, l)
  round_from-Uploaded none [] a e h l = (h, l)
  round_from-Uploaded none (u ∷ rest) a e h l =
      after_store-Uploaded u rest a (store a.outside u) refl (h, l)

  -- However often uploads fail, and whatever lies outside of the agent: after any number of rounds
  -- the uploads of any sites and paths that are in the queue, have their result, or were held by
  -- the thread when it ended, are as many as before. If those with a result had been uploaded
  -- before, those with a result afterwards have been too, and the thread ends only at an upload
  -- that was tried again 1024 times.
  pub events-rounds :
      (p : Text → Text → Bool) (n : ℕ) (a : Agent S)
      → All IsUploaded a.finished
      → IsAtLimit a.lost
      → (events p (rounds store unlink_local n a) ≡ events p a)
        × All IsUploaded (rounds store unlink_local n a).finished
        × IsAtLimit (rounds store unlink_local n a).lost
  unfolding rounds
  events-rounds p zero a u l = (refl, u, l)
  events-rounds p (suc n) a u l =
      let next = round_from store unlink_local a.lost a.transfer_queue a in
      let (uploaded, limit) = round_from-Uploaded a.lost a.transfer_queue a refl u l in
      let (same, finished, limit') = events-rounds p n next uploaded limit in
      (same ∙ events-round_from p a.lost a.transfer_queue a refl refl, finished, limit')

-- Every event of the queue has been tried again so many times at most.
abbrev pub TriedAtMost : ℕ → List UploadEvent → Type 0
TriedAtMost k us = All (λ u. u.retry_number ≤ k) us

weaken : (k : ℕ) (us : List UploadEvent) → TriedAtMost k us → TriedAtMost (suc k) us
weaken k [] h = tt
weaken k (u ∷ us) h = (omega arith, weaken k us h.1)

retry_sleep-ok : (n : ℕ) → n ≤ 1024 → (t : ℕ) × (retry_sleep n ≡ ok t)
unfolding retry_sleep
retry_sleep-ok n h = (min (500000 * 2 ^ (n - 1)) 20000000, ground arith)

module _ {S : Type 0} (store : S → UploadEvent → Option Error × S)
    (unlink_local : S → UploadEvent → S) where
  IsRunning : ℕ → Agent S → Type 0
  IsRunning k a = (a.lost ≡ none) × TriedAtMost k a.transfer_queue

  after_store-IsRunning :
      (k : ℕ) (u : UploadEvent) (rest : List UploadEvent) (a : Agent S) (r : Option Error × S)
      → k < 1024
      → a.lost ≡ none
      → TriedAtMost k (u ∷ rest)
      → IsRunning (suc k) (after_store store unlink_local u rest a r)
  unfolding after_store IsRunning after_failure again
  after_store-IsRunning k u rest a (none, s) b l h = (l, weaken k rest h.1)
  after_store-IsRunning k u rest a (some ex, s) b l h =
      let (t, e) = retry_sleep-ok (u.retry_number + 1) (omega (arith, h.0)) in
      subst (λ time. IsRunning (suc k) (after_failure u rest a s time)) (sym e)
        (
          l,
          All-append (λ v. v.retry_number ≤ suc k) rest (again u ∷ []) (weaken k rest h.1)
              (omega (arith, h.0), tt),
        )

  round_from-IsRunning :
      (k : ℕ) (lost : Option UploadEvent) (queue : List UploadEvent) (a : Agent S)
      → k < 1024
      → a.lost ≡ lost
      → a.transfer_queue ≡ queue
      → IsRunning k a
      → IsRunning (suc k) (round_from store unlink_local lost queue a)
  unfolding round_from IsRunning
  round_from-IsRunning k (some u) queue a b l e h = (h.0, weaken k a.transfer_queue h.1)
  round_from-IsRunning k none [] a b l e h = (h.0, weaken k a.transfer_queue h.1)
  round_from-IsRunning k none (u ∷ rest) a b l e h =
      after_store-IsRunning k u rest a (store a.outside u) b l (subst (TriedAtMost k) e h.1)

  -- As long as no upload can have been tried more than 1024 times, no exception ends the thread,
  -- and so no upload is lost.
  pub rounds_running :
      (n k : ℕ) (a : Agent S)
      → k + n ≤ 1024
      → a.lost ≡ none
      → TriedAtMost k a.transfer_queue
      → (rounds store unlink_local n a).lost ≡ none
  unfolding rounds IsRunning
  rounds_running zero k a b l h = l
  rounds_running (suc n) k a b l h =
      let next = round_from-IsRunning k a.lost a.transfer_queue a (omega arith) refl refl (l, h) in
      rounds_running n (suc k) (round_from store unlink_local a.lost a.transfer_queue a)
        (omega arith) next.0 next.1

  pub stays_lost :
      (n : ℕ) (a : Agent S) (u : UploadEvent) → a.lost ≡ some u → rounds store unlink_local n a ≡ a
  unfolding rounds round_from
  stays_lost zero a u l = refl
  stays_lost (suc n) a u l =
      ap (λ o. rounds store unlink_local n (round_from store unlink_local o a.transfer_queue a)) l
      ∙ stays_lost n a u l
