-- ===== src/Receiver/Flush.antt =====
-- The flush position that `process_completed_segments` of pghoard/walreceiver.py reports.
use pghoard.Base.{
  Bool, List, [], ap, false, map, not, ok, refl, some, sym, true, ℕ, ◌&&◌, ◌++◌, ◌==◌, ◌>>=◌, ◌||◌,
  ◌∙◌, ◌∷◌, ◌≡◌,
}
use mathlib.Core.List.{append_assoc, append-nil}
use mathlib.Core.Path.{subst}
use pghoard.Receiver.{
  Receiver, pop_key, add_sorted, discard, exceeds_min, collect, flush_position, flush_one,
  flush_all, process_completed_segments,
}
use pghoard.Receiver.Keys.{
  Ascending, Distinct, has, SameKeys, or_swap, has-add_sorted, add_sorted-Ascending, Popped,
  pop_lem, none_has, exceeds_none, discard_first, larger_left, same_left, has_first, or_false,
}

-- What the first loop leaves: every key of the callbacks is in the set, beside what was there.
collect_set : List ℕ → List ℕ → List ℕ
collect_set [] s = s
collect_set (k ∷ ks) s = collect_set ks (add_sorted k s)

collect_lem :
    (has_result : ℕ → Bool) (ks : List ℕ) (r : Receiver)
    → ((collect has_result ks r).completed_wal_segments ≡ collect_set ks r.completed_wal_segments)
      × ((collect has_result ks r).callbacks ≡ r.callbacks)
      × ((collect has_result ks r).flush_feedback ≡ r.flush_feedback)
      × ((collect has_result ks r).compression_queue ≡ r.compression_queue)
unfolding collect collect_set
collect_lem has_result [] r = (refl, refl, refl, refl)
collect_lem has_result (k ∷ ks) r = collect_lem has_result ks _

collect_set-Ascending : (ks s : List ℕ) → Ascending s → Ascending (collect_set ks s)
unfolding collect_set
collect_set-Ascending [] s h = h
collect_set-Ascending (k ∷ ks) s h =
    collect_set-Ascending ks (add_sorted k s) (add_sorted-Ascending k s h)

has-collect_set : (i : ℕ) (ks s : List ℕ) → has i (collect_set ks s) ≡ (has i ks || has i s)
unfolding collect_set has
has-collect_set i [] s = refl
has-collect_set i (k ∷ ks) s =
    has-collect_set i ks (add_sorted k s)
    ∙ (rw (has-add_sorted i k s) (or_swap (i == k) (has i ks) (has i s)))

-- The state of the second loop before the keys that are left.
IsReady : List ℕ → Receiver → Type 0
IsReady ks r =
    Ascending ks × (r.completed_wal_segments ≡ ks) × Distinct r.callbacks × SameKeys ks r.callbacks

-- What has happened at its end, where it began with these positions.
abbrev pub Flushed : List ℕ → Receiver → Receiver → Type 0
Flushed ks r r' =
    (r'.callbacks ≡ [])
    × (r'.completed_wal_segments ≡ [])
    × (r'.flush_feedback ≡ r.flush_feedback ++ map flush_position ks)
    × (r'.compression_queue ≡ r.compression_queue)

flush_one-less :
    (k : ℕ) (callbacks : List ℕ) (r : Receiver)
    → exceeds_min k callbacks ≡ false
    → flush_one k callbacks r ≡ record r {
      callbacks = callbacks;
      completed_wal_segments = discard k r.completed_wal_segments;
      flush_feedback = r.flush_feedback ++ flush_position k ∷ [];
      last_flushed_lsn = some (flush_position k);
    }
unfolding flush_one
flush_one-less k callbacks r h = rw h refl

only_larger : (a b : Bool) → a ≡ (b && not true) → a ≡ true → ⊥
only_larger a true h e = cc
only_larger a false h e = cc

flush_all-cons :
    (k : ℕ) (ks callbacks : List ℕ) (r : Receiver)
    → pop_key k r.callbacks ≡ ok callbacks
    → flush_all (k ∷ ks) r ≡ flush_all ks (flush_one k callbacks r)
unfolding flush_all
flush_all-cons k ks callbacks r h = ap (λ m. m >>= λ c. flush_all ks (flush_one k c r)) h

flushed_one : ℕ → List ℕ → Receiver → Receiver
flushed_one k callbacks r = record r {
  callbacks = callbacks;
  completed_wal_segments = discard k r.completed_wal_segments;
  flush_feedback = r.flush_feedback ++ flush_position k ∷ [];
  last_flushed_lsn = some (flush_position k);
}

-- One round of the second loop.
flush_step :
    (k : ℕ) (ks : List ℕ) (r : Receiver)
    → IsReady (k ∷ ks) r
    → (js : List ℕ) × (flush_all (k ∷ ks) r ≡ flush_all ks (flushed_one k js r))
      × IsReady ks (flushed_one k js r)
unfolding IsReady Popped flushed_one
flush_step k ks r h =
    let (js, (p, d, f)) = pop_lem k r.callbacks (sym (h.3 k) ∙ has_first k ks) h.2 in
    let less = exceeds_none k js (larger_left k ks r.callbacks js h.0.0 h.3 f) in
    (
      js,
      flush_all-cons k ks js r p ∙ ap (flush_all ks) (flush_one-less k js r less),
      (
        h.0.1,
        ap (discard k) h.1 ∙ discard_first k ks h.0.0,
        d,
        same_left k ks r.callbacks js h.0.0 h.3 f,
      ),
    )

flush_all_lem :
    (ks : List ℕ) (r : Receiver)
    → IsReady ks r
    → (r' : Receiver) × ((flush_all ks r ≡ ok r') × Flushed ks r r')
unfolding flush_all flushed_one IsReady has
flush_all_lem [] r h =
    (r, (refl, (none_has r.callbacks h.3, h.1, sym (append-nil r.flush_feedback), refl)))
flush_all_lem (k ∷ ks) r h =
    let (js, e, ready) = flush_step k ks r h in
    let (r', (e', (c, m, b, q))) = flush_all_lem ks (flushed_one k js r) ready in
    (r', (e ∙ e', (c, m, b ∙ append_assoc r.flush_feedback (flush_position k ∷ []) _, q)))

-- `process_completed_segments` has reported these positions, and nothing waits any more.
abbrev pub IsProcessed : List ℕ → Receiver → Receiver → Type 0
IsProcessed ks r r' =
    Ascending ks
    × SameKeys ks r.callbacks
    × (r'.callbacks ≡ [])
    × (r'.completed_wal_segments ≡ [])
    × (r'.flush_feedback ≡ r.flush_feedback ++ map flush_position ks)
    × (r'.compression_queue ≡ r.compression_queue)

collect_set-SameKeys : (ks : List ℕ) → SameKeys (collect_set ks []) ks
unfolding has
collect_set-SameKeys ks i = has-collect_set i ks [] ∙ or_false (has i ks)

collect-IsReady :
    (has_result : ℕ → Bool) (r : Receiver)
    → Distinct r.callbacks
    → r.completed_wal_segments ≡ []
    → IsReady (collect_set r.callbacks []) (collect has_result r.callbacks r)
unfolding IsReady has
collect-IsReady has_result r d e =
    let (s, c, f, q) = collect_lem has_result r.callbacks r in
    (
      collect_set-Ascending r.callbacks [] tt,
      s ∙ ap (collect_set r.callbacks) e,
      subst Distinct (sym c) d,
      λ i. has-collect_set i r.callbacks [] ∙ or_false (has i r.callbacks) ∙ ap (has i) (sym c),
    )

-- Whatever results of transfers are there: a call with distinct keys and no completed segment left
-- over takes out every segment that waits, in ascending order, and reports the end of each one to
-- the server as flushed. So a segment counts as flushed whether its transfer has ended or not.
pub process_completed_segments-IsProcessed :
    (has_result : ℕ → Bool) (r : Receiver)
    → Distinct r.callbacks
    → r.completed_wal_segments ≡ []
    → (r' : Receiver) × (ks : List ℕ) × ((process_completed_segments has_result r ≡ ok r')
        × IsProcessed ks r r')
unfolding process_completed_segments
process_completed_segments-IsProcessed has_result r d e =
    let c = collect has_result r.callbacks r in
    let ks = collect_set r.callbacks [] in
    let (s, w, f, q) = collect_lem has_result r.callbacks r in
    let ready = collect-IsReady has_result r d e in
    let (r', (p, (a, b, g, o))) = flush_all_lem ks c ready in
    (
      r',
      ks,
      (
        ap (λ l. flush_all l c) (s ∙ ap (collect_set r.callbacks) e) ∙ p,
        (
          collect_set-Ascending r.callbacks [] tt,
          collect_set-SameKeys r.callbacks,
          a,
          b,
          g ∙ ap (λ l. l ++ map flush_position ks) f,
          o ∙ q,
        ),
      ),
    )
