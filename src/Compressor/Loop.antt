-- ===== src/Compressor/Loop.antt =====
-- `CompressorThread.run_safe` of pghoard/compressor.py: the loop over the events of the queue and
-- its retries. `handle` is a parameter that stands for `handle_event` and
-- `handle_decompression_event`: from the state outside of the loop and an event to the next state
-- and an exception, if one came out. `wait` says whether the critical failure event is set when the
-- loop waits on it between two attempts. A reading of an empty queue changes nothing and is not in
-- the model: the queue is the list of the events to come.
pub mod Retries
use pghoard.Base.{
  Bool, Error, List, Option, [], false, if◌then◌else◌, none, some, suc, true, zero, ℕ, ◌++◌, ◌-◌,
  ◌∷◌,
}

-- `QuitEvent`, or an event of the compressor. `has_file_type` and `has_callback_queue` are the truth of
-- these attributes.
pub data Event (E : Type 0) : Type 0 where
  quit : Event E
  decompression : E → Bool → Event E
  compression : E → Bool → Bool → Event E

-- What the loop tells the callback queue of an event: success where it is ignored, an exception
-- where it is given up.
pub data Reply (E : Type 0) : Type 0 where
  ignored : E → Reply E
  given_up : E → Error → Reply E

-- How the loop ends: the queue has no event left, it was told to quit, an event was given up and
-- the exception came out of the loop, or a failure elsewhere stopped it.
pub data Ending : Type 0 where
  drained : Ending
  told_to_quit : Ending
  critical : Error → Ending
  stopped : Error → Ending

pub record Run (E S : Type 0) : Type 0 where
  pub ending : Ending
  pub replies : List (Reply E)
  pub critical_failure_event : Bool
  pub state : S

abbrev pub max_failed_retry_attempts : ℕ
max_failed_retry_attempts = 3

module _ {E S : Type 0} where
  abbrev pub reply : List (Reply E) → Run E S → Run E S
  reply rs r = record r { replies = rs ++ r.replies }

-- `event.callback_queue.put(...)` where there is a queue
unfoldable pub answer : {E : Type 0} → Bool → Reply E → List (Reply E)
answer has_callback_queue r = if has_callback_queue then r ∷ [] else []

module _ {E S : Type 0} (handle : S → E → Option Error × S) (wait : S → Bool × S) where
  unfoldable pub after_wait : Error → (S → Run E S) → Bool × S → Run E S
  after_wait ex again (true, s) = record {
    ending = stopped ex;
    replies = [];
    critical_failure_event = true;
    state = s;
  }
  after_wait ex again (false, s) = again s

  unfoldable pub after_attempt : (S → Run E S) → (S → Run E S) → Option Error × S → Run E S
  unfolding after_wait
  after_attempt next again (none, s) = next s
  after_attempt next again (some ex, s) = after_wait ex again (wait s)

  unfoldable pub after_last_attempt : E → Bool → (S → Run E S) → Option Error × S → Run E S
  unfolding answer
  after_last_attempt e has_callback_queue next (none, s) = next s
  after_last_attempt e has_callback_queue next (some ex, s) = record {
    ending = critical ex;
    replies = answer has_callback_queue (given_up e ex);
    critical_failure_event = true;
    state = s;
  }

  -- The attempts at an event, where `left` more may follow. `next` is the loop on what comes after.
  unfoldable pub attempt_event : ℕ → E → Bool → (S → Run E S) → S → Run E S
  unfolding after_attempt after_last_attempt
  attempt_event zero e has_callback_queue next s =
      after_last_attempt e has_callback_queue next (handle s e)
  attempt_event (suc left) e has_callback_queue next s =
      after_attempt next (attempt_event left e has_callback_queue next) (handle s e)

  unfoldable pub run : List (Event E) → S → Run E S
  unfolding attempt_event answer
  run [] s = record { ending = drained; replies = []; critical_failure_event = false; state = s }
  run (quit ∷ es) s = record {
    ending = told_to_quit;
    replies = [];
    critical_failure_event = false;
    state = s;
  }
  run (decompression e has_callback_queue ∷ es) s =
      attempt_event (max_failed_retry_attempts - 1) e has_callback_queue (run es) s
  run (compression e true has_callback_queue ∷ es) s =
      attempt_event (max_failed_retry_attempts - 1) e has_callback_queue (run es) s
  run (compression e false has_callback_queue ∷ es) s =
      reply (answer has_callback_queue (ignored e)) (run es s)
