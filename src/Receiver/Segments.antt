-- ===== src/Receiver/Segments.antt =====
-- The segments that `WALReceiver` of pghoard/walreceiver.py hands on.
use pghoard.Base.{
  All, Bool, Bool-cases, List, Option, Text, [], ap, arith, false, if◌then◌else◌, inl, inr, length,
  length-append, length-replicate, none, ok, replicate, some, text_eq, true, ℕ, ◌++◌, ◌+◌, ◌-◌,
  ◌==◌, ◌>>=◌, ◌∙◌, ◌∷◌, ◌≡◌, ◌≢◌, ◌≤◌,
}
use pghoard.Wal.Lsn.{wal_seg_size}
use pghoard.Receiver.{
  Message, Receiver, set_key, padded, switch_wal, write_message, is_switch_due,
  process_completed_segments, name_of, make_room, finish_message, handle_message,
}
use pghoard.Receiver.Keys.{Distinct}
use pghoard.Receiver.Flush.{process_completed_segments-IsProcessed}

length-padded :
    (bytes : List ℕ) → length bytes ≤ wal_seg_size → length (padded bytes) ≡ wal_seg_size
unfolding padded
length-padded bytes h = omega (
  arith,
  length-append bytes (replicate (wal_seg_size - length bytes) 0),
  length-replicate {A = ℕ} (wal_seg_size - length bytes) 0,
)

switched : Text → Receiver → Receiver
unfolding padded
switched name r = record r {
  buffer = [];
  latest_wal = none;
  callbacks = set_key r.latest_wal_start r.callbacks;
  compression_queue =
      r.compression_queue ++ record { name = name; source_data = padded r.buffer } ∷ [];
}

switch_wal_lem :
    (r : Receiver) (name : Text)
    → r.latest_wal ≡ some name
    → length r.buffer ≤ wal_seg_size
    → switch_wal r ≡ ok (switched name r)
unfolding switch_wal switched padded
switch_wal_lem r name e h = ground (arith, e, h)

set_key-All : (P : ℕ → Type 0) (k : ℕ) (ks : List ℕ) → P k → All P ks → All P (set_key k ks)
unfolding set_key
set_key-All P k [] p h = (p, tt)
set_key-All P k (j ∷ js) p h = elim (Bool-cases (k == j)) [
  | inl s ↦ rw s h
  | inr n ↦ rw n (h.0, set_key-All P k js p h.1)
]

set_key-Distinct : (k : ℕ) (ks : List ℕ) → Distinct ks → Distinct (set_key k ks)
unfolding set_key
set_key-Distinct k [] h = (tt, tt)
set_key-Distinct k (j ∷ js) h = elim (Bool-cases (k == j)) [
  | inl s ↦ rw s h
  | inr n ↦ rw n (set_key-All (λ i. j ≢ i) k js (ground (arith, n)) h.0, set_key-Distinct k js h.1)
]

module _ (timeline : ℕ) (pg_version_server : Option ℕ) where
  make_room_none :
      (has_result : ℕ → Bool) (m : Message) (r : Receiver)
      → length r.buffer + length m.payload ≤ wal_seg_size
      → make_room timeline pg_version_server has_result m r ≡ ok r
  unfolding make_room
  make_room_none has_result m r h = ground (arith, h)

  written_to : Message → Receiver → Receiver
  written_to m r = record r { buffer = r.buffer ++ m.payload }

  write_message-some :
      (name w : Text) (m : Message) (r : Receiver)
      → r.latest_wal ≡ some w
      → write_message name m r ≡ written_to m r
  unfolding write_message written_to
  write_message-some name w m r e = ground (arith, e)

  is_switch_due_other :
      (name w : Text) (r : Receiver)
      → r.latest_wal ≡ some w
      → text_eq w name ≡ false
      → is_switch_due name r ≡ true
  unfolding is_switch_due
  is_switch_due_other name w r e h = ground (arith, e, h)

  finish_message_other :
      (has_result : ℕ → Bool) (name w : Text) (r : Receiver)
      → r.latest_wal ≡ some w
      → text_eq w name ≡ false
      → length r.buffer ≤ wal_seg_size
      → finish_message has_result name r ≡ process_completed_segments has_result (switched w r)
  unfolding finish_message
  finish_message_other has_result name w r e o h =
      ap (λ b. (if b then switch_wal r else ok r) >>= process_completed_segments has_result)
        (is_switch_due_other name w r e o)
      ∙ ap (λ x. x >>= process_completed_segments has_result) (switch_wal_lem r w e h)

  handle_message_fits :
      (has_result : ℕ → Bool) (m : Message) (r : Receiver) (name w : Text)
      → name_of timeline pg_version_server m ≡ ok name
      → r.latest_wal ≡ some w
      → length r.buffer + length m.payload ≤ wal_seg_size
      → handle_message timeline pg_version_server has_result m r
        ≡ finish_message has_result name (written_to m r)
  unfolding handle_message
  handle_message_fits has_result m r name w n e h =
      ap
        (λ x. x >>= λ nm. make_room timeline pg_version_server has_result m r >>= λ r'.
          finish_message has_result nm (write_message nm m r'))
        n
      ∙ ap (λ x. x >>= λ r'. finish_message has_result name (write_message name m r'))
          (make_room_none has_result m r h)
      ∙ ap (finish_message has_result name) (write_message-some name w m r e)

  -- While a segment is being received, a message of another segment that still fits into the buffer
  -- is added to it: what goes to the compressor under the name of the old segment ends with the
  -- data of the new one.
  pub handle_message_mixes :
      (has_result : ℕ → Bool) (m : Message) (r : Receiver) (name w : Text)
      → name_of timeline pg_version_server m ≡ ok name
      → r.latest_wal ≡ some w
      → text_eq w name ≡ false
      → length r.buffer + length m.payload ≤ wal_seg_size
      → Distinct r.callbacks
      → r.completed_wal_segments ≡ []
      → (r' : Receiver) × (handle_message timeline pg_version_server has_result m r ≡ ok r')
        × (r'.compression_queue
            ≡ r.compression_queue
              ++ record { name = w; source_data = padded (r.buffer ++ m.payload) } ∷ [])
  unfolding handle_message written_to switched
  handle_message_mixes has_result m r name w n e o h d c =
      let next = written_to m r in
      let fits : length next.buffer ≤ wal_seg_size =
        omega (arith, h, length-append r.buffer m.payload) in
      let done = switched w next in
      let (r', ks, (p, q)) =
        process_completed_segments-IsProcessed has_result done
          (set_key-Distinct r.latest_wal_start r.callbacks d) c in
      (
        r',
        handle_message_fits has_result m r name w n e h
            ∙ finish_message_other has_result name w next e o fits
            ∙ p,
        q.5,
      )
