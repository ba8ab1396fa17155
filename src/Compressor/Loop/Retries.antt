-- ===== src/Compressor/Loop/Retries.antt =====
-- Which events the loop of `CompressorThread` of pghoard/compressor.py handles.
use pghoard.Base.{
  Bool, Error, List, Option, [], ap, false, none, refl, some, suc, sym, true, zero, ℕ, ◌∙◌, ◌∷◌,
  ◌≡◌,
}
use mathlib.Core.Path.{subst}
use pghoard.Compressor.Loop.{
  Event, quit, decompression, compression, drained, Run, after_wait, after_attempt,
  after_last_attempt, attempt_event, run,
}

module _ {E S : Type 0} (handle : S → E → Option Error × S) (wait : S → Bool × S) where
  -- Specification: an event is handled from one state to another, with at most so many failures
  -- before.
  pub data Handled (e : E) : ℕ → S → S → Type 0 where
    at_once : {left : ℕ} {s s' : S} → handle s e ≡ (none, s') → Handled e left s s'
    after_failure :
        {left : ℕ} {ex : Error} {s t u s' : S}
        → handle s e ≡ (some ex, t)
        → wait t ≡ (false, u)
        → Handled e left u s'
        → Handled e (suc left) s s'

  -- Specification: the events are handled, or ignored, one after another.
  pub data Completed : List (Event E) → S → S → Type 0 where
    nothing_left : {s : S} → Completed [] s s
    decompressed :
        {e : E} {has_callback_queue : Bool} {es : List (Event E)} {s t u : S}
        → Handled e 2 s t
        → Completed es t u
        → Completed (decompression e has_callback_queue ∷ es) s u
    compressed :
        {e : E} {has_callback_queue : Bool} {es : List (Event E)} {s t u : S}
        → Handled e 2 s t
        → Completed es t u
        → Completed (compression e true has_callback_queue ∷ es) s u
    unrecognized :
        {e : E} {has_callback_queue : Bool} {es : List (Event E)} {s u : S}
        → Completed es s u
        → Completed (compression e false has_callback_queue ∷ es) s u

  -- An event that is handled in time lets the loop go on.
  attempt_event-Handled :
      (left : ℕ) (e : E) (q : Bool) (next : S → Run E S) {s t : S}
      → Handled e left s t
      → attempt_event handle wait left e q next s ≡ next t
  unfolding attempt_event after_last_attempt after_attempt after_wait
  attempt_event-Handled zero e q next (at_once p) = ap (after_last_attempt handle wait e q next) p
  attempt_event-Handled (suc left) e q next (at_once p) =
      ap (after_attempt handle wait next (attempt_event handle wait left e q next)) p
  attempt_event-Handled (suc left) e q next (after_failure {ex = ex} p w h) =
      ap (after_attempt handle wait next (attempt_event handle wait left e q next)) p
      ∙ ap (after_wait handle wait ex (attempt_event handle wait left e q next)) w
      ∙ attempt_event-Handled left e q next h

  -- Where the loop goes on after an event, that has been handled.
  abbrev GoesOn : ℕ → E → (S → Run E S) → S → Run E S → Type 0
  GoesOn left e next s r = (t : S) × Handled e left s t × (r ≡ next t)

  after_last_attempt-drained :
      (e : E) (q : Bool) (next : S → Run E S) (s : S) (r : Option Error × S)
      → handle s e ≡ r
      → (after_last_attempt handle wait e q next r).ending ≡ drained
      → GoesOn 0 e next s (after_last_attempt handle wait e q next r)
  unfolding after_last_attempt
  after_last_attempt-drained e q next s (none, t) h d = (t, at_once h, refl)
  after_last_attempt-drained e q next s (some ex, t) h d = cc

  after_wait-drained :
      (left : ℕ) (e : E) (ex : Error) (next again : S → Run E S) (s t : S) (r : Bool × S)
      → handle s e ≡ (some ex, t)
      → wait t ≡ r
      → ((u : S) → (again u).ending ≡ drained → GoesOn left e next u (again u))
      → (after_wait handle wait ex again r).ending ≡ drained
      → GoesOn (suc left) e next s (after_wait handle wait ex again r)
  unfolding after_wait
  after_wait-drained left e ex next again s t (true, u) h w more d = cc
  after_wait-drained left e ex next again s t (false, u) h w more d =
      let (v, k, p) = more u d in (v, after_failure h w k, p)

  after_attempt-drained :
      (left : ℕ) (e : E) (next again : S → Run E S) (s : S) (r : Option Error × S)
      → handle s e ≡ r
      → ((u : S) → (again u).ending ≡ drained → GoesOn left e next u (again u))
      → (after_attempt handle wait next again r).ending ≡ drained
      → GoesOn (suc left) e next s (after_attempt handle wait next again r)
  unfolding after_attempt
  after_attempt-drained left e next again s (none, t) h more d = (t, at_once h, refl)
  after_attempt-drained left e next again s (some ex, t) h more d =
      after_wait-drained left e ex next again s t (wait t) h refl more d

  attempt_event-drained :
      (left : ℕ) (e : E) (q : Bool) (next : S → Run E S) (s : S)
      → (attempt_event handle wait left e q next s).ending ≡ drained
      → GoesOn left e next s (attempt_event handle wait left e q next s)
  unfolding attempt_event
  attempt_event-drained zero e q next s d =
      after_last_attempt-drained e q next s (handle s e) refl d
  attempt_event-drained (suc left) e q next s d =
      after_attempt-drained left e next (attempt_event handle wait left e q next) s (handle s e)
        refl (λ u k. attempt_event-drained left e q next u k) d

  -- The loop on an empty queue has come through all events only by handling each recognized one,
  -- with at most two failures and no failure elsewhere before the success: no event is skipped.
  pub run-Completed :
      (es : List (Event E)) (s : S)
      → (run handle wait es s).ending ≡ drained
      → Completed es s (run handle wait es s).state
  unfolding run
  run-Completed [] s d = nothing_left
  run-Completed (quit ∷ es) s d = cc
  run-Completed (compression e false q ∷ es) s d = unrecognized (run-Completed es s d)
  run-Completed (compression e true q ∷ es) s d =
      let (t, h, p) = attempt_event-drained 2 e q (run handle wait es) s d in
      compressed h (
        subst (Completed es t) (sym (ap (λ r. r.state) p))
          (run-Completed es t (sym (ap (λ r. r.ending) p) ∙ d)))
  run-Completed (decompression e q ∷ es) s d =
      let (t, h, p) = attempt_event-drained 2 e q (run handle wait es) s d in
      decompressed h (
        subst (Completed es t) (sym (ap (λ r. r.state) p))
          (run-Completed es t (sym (ap (λ r. r.ending) p) ∙ d)))

  -- The loop has come to the empty queue in a state, and the critical failure event is not set.
  abbrev pub IsDone : S → Run E S → Type 0
  IsDone t r = (r.ending ≡ drained) × (r.state ≡ t) × (r.critical_failure_event ≡ false)

  -- Events that can be handled one after another, each with at most two failures before the
  -- success, are: the loop comes to the empty queue, in that state, and the critical failure event
  -- is not set.
  pub Completed-run :
      (es : List (Event E)) {s t : S}
      → Completed es s t
      → ((run handle wait es s).ending ≡ drained)
        × ((run handle wait es s).state ≡ t)
        × ((run handle wait es s).critical_failure_event ≡ false)
  unfolding run
  Completed-run (quit ∷ es) k = elim k [ ]
  Completed-run [] nothing_left = (refl, refl, refl)
  Completed-run (decompression e q ∷ es) (decompressed h k) =
      subst (IsDone _) (sym (attempt_event-Handled 2 e q (run handle wait es) h))
        (Completed-run es k)
  Completed-run (compression e true q ∷ es) (compressed h k) =
      subst (IsDone _) (sym (attempt_event-Handled 2 e q (run handle wait es) h))
        (Completed-run es k)
  Completed-run (compression e false q ∷ es) (unrecognized k) = Completed-run es k
