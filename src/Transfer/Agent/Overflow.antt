-- ===== src/Transfer/Agent/Overflow.antt =====
-- The end of the thread of `TransferAgent` of pghoard/transfer.py.
use pghoard.Base.{
  Error, List, Option, ap, arith, none, other_error, raise, refl, some, suc, ℕ, ◌+◌, ◌<◌, ◌∙◌, ◌∷◌,
  ◌≡◌, ◌≤◌,
}
use pghoard.Transfer.Agent.{
  UploadEvent, Agent, retry_sleep, after_failure, after_store, round_from, rounds,
}
use pghoard.Transfer.Agent.Retries.{stays_lost}

retry_sleep_raises : (n : ℕ) → 1024 < n → retry_sleep n ≡ raise other_error
unfolding retry_sleep
retry_sleep_raises n h = ground arith

module _ {S : Type 0} (store : S → UploadEvent → Option Error × S)
    (unlink_local : S → UploadEvent → S) where
  -- The agent after the thread has ended with an event.
  ended : UploadEvent → List UploadEvent → Agent S → S → Agent S
  ended u rest a s = record a { transfer_queue = rest; lost = some u; outside = s }

  last_round :
      (a : Agent S) (u : UploadEvent) (rest : List UploadEvent) {ex : Error} {s : S}
      → a.lost ≡ none
      → a.transfer_queue ≡ u ∷ rest
      → 1024 ≤ u.retry_number
      → store a.outside u ≡ (some ex, s)
      → round_from store unlink_local a.lost a.transfer_queue a ≡ ended u rest a s
  unfolding round_from after_store after_failure ended
  last_round a u rest {s = s} l e b f =
      ap (λ o. round_from store unlink_local o a.transfer_queue a) l
      ∙ ap (λ q. round_from store unlink_local none q a) e
      ∙ ap (after_store store unlink_local u rest a) f
      ∙ ap (after_failure u rest a s) (retry_sleep_raises (u.retry_number + 1) (omega arith))

  -- An upload that has been tried again 1024 times and fails once more ends the thread: it is
  -- neither in the queue nor finished afterwards, and however many rounds follow, the rest of the
  -- queue stays as it is.
  pub rounds_end :
      (n : ℕ) (a : Agent S) (u : UploadEvent) (rest : List UploadEvent) {ex : Error} {s : S}
      → a.lost ≡ none
      → a.transfer_queue ≡ u ∷ rest
      → 1024 ≤ u.retry_number
      → store a.outside u ≡ (some ex, s)
      → ((rounds store unlink_local (suc n) a).lost ≡ some u)
        × ((rounds store unlink_local (suc n) a).transfer_queue ≡ rest)
        × ((rounds store unlink_local (suc n) a).finished ≡ a.finished)
  unfolding rounds ended
  rounds_end n a u rest {s = s} l e b f =
      let p =
        ap (rounds store unlink_local n) (last_round a u rest l e b f)
        ∙ stays_lost store unlink_local n (ended u rest a s) u refl in
      (ap (λ r. r.lost) p, ap (λ r. r.transfer_queue) p, ap (λ r. r.finished) p)
