-- ===== src/Transfer/Agent.antt =====
-- Uploads in `TransferAgent` of pghoard/transfer.py: `handle_upload` and its retries through the
-- queue. `store` is a parameter that stands for the part of `handle_upload` up to the return of
-- `store_file_object`, and `unlink_local` one for the deletion of the local file and its metadata,
-- whose exceptions are caught. What other threads put into the queue is not in the model.
pub mod Retries
pub mod Overflow
use pghoard.Base.{
  Bool, Error, List, Option, Result, Text, [], if◌then◌else◌, leb, min, none, ok, other_error,
  raise, some, suc, zero, ℕ, ◌&&◌, ◌*◌, ◌++◌, ◌+◌, ◌-◌, ◌^◌, ◌∷◌,
}
use pghoard.Transfer.Stats.{FileType}

pub record UploadEvent : Type 0 where
  pub backup_site_name : Text
  pub file_path : Text
  pub file_type : FileType
  pub source_is_path : Bool
  pub remove_after_upload : Bool
  pub retry_number : ℕ

-- The transfer queue, the events that have a result, oldest first, the event that the thread held
-- when an exception ended it, the microseconds slept, and what lies outside of the agent.
pub record Agent (S : Type 0) : Type 0 where
  pub transfer_queue : List UploadEvent
  pub finished : List UploadEvent
  pub lost : Option UploadEvent
  pub slept : ℕ
  pub outside : S

-- `min(0.5 * 2 ** (retry_number - 1), 20)` seconds. From 2 ** 1024 on the power cannot be turned into
-- a float, which raises OverflowError.
unfoldable pub retry_sleep : ℕ → Result ℕ
retry_sleep retry_number =
    if leb retry_number 1024
    then ok (min (500000 * 2 ^ (retry_number - 1)) 20000000)
    else raise other_error

-- `dataclasses.replace(file_to_transfer, retry_number=file_to_transfer.retry_number + 1)`
unfoldable pub again : UploadEvent → UploadEvent
again u = record u { retry_number = u.retry_number + 1 }

-- The event goes back into the queue after the sleep; an exception comes before that, out of the
-- handler and of the thread.
unfoldable pub after_failure :
    {S : Type 0} → UploadEvent → List UploadEvent → Agent S → S → Result ℕ → Agent S
unfolding again
after_failure u rest a s (ok time) = record a {
  transfer_queue = rest ++ again u ∷ [];
  slept = a.slept + time;
  outside = s;
}
after_failure u rest a s (raise ex) = record a { transfer_queue = rest; lost = some u; outside = s }

module _ {S : Type 0} (store : S → UploadEvent → Option Error × S)
    (unlink_local : S → UploadEvent → S) where
  -- What follows on the outcome of the upload of the first event of the queue.
  unfoldable pub after_store : UploadEvent → List UploadEvent → Agent S → Option Error × S → Agent S
  unfolding retry_sleep after_failure
  after_store u rest a (none, s) = record a {
    transfer_queue = rest;
    finished = a.finished ++ u ∷ [];
    outside = if u.remove_after_upload && u.source_is_path then unlink_local s u else s;
  }
  after_store u rest a (some ex, s) = after_failure u rest a s (retry_sleep (u.retry_number + 1))

  -- One round of `run_safe`: the queue may be empty, and the thread may have ended.
  unfoldable pub round_from : Option UploadEvent → List UploadEvent → Agent S → Agent S
  unfolding after_store
  round_from (some u) queue a = a
  round_from none [] a = a
  round_from none (u ∷ rest) a = after_store u rest a (store a.outside u)

  unfoldable pub rounds : ℕ → Agent S → Agent S
  unfolding round_from
  rounds zero a = a
  rounds (suc n) a = rounds n (round_from a.lost a.transfer_queue a)
