-- ===== src/Receiver.antt =====
-- `WALReceiver` of pghoard/walreceiver.py: the messages of the replication connection, the buffer of
-- the segment that is being received, and the flush position that is reported to the server.
-- `has_result` says which callback queues hold a result of the transfer; it is taken to be the same
-- for the reads of one round. Sending of feedback and of history files is not modelled beyond the
-- positions that are sent.
pub mod Keys
pub mod Flush
pub mod Segments
use pghoard.Base.{
  Bool, List, Option, Result, Text, [], assertion_error, false, guard, if◌then◌else◌, key_error,
  leb, length, ltb, none, not, ok, or_raise, raise, replicate, some, text_eq, true, type_error, ℕ,
  ◌&&◌, ◌++◌, ◌+◌, ◌-◌, ◌==◌, ◌>>=◌, ◌>>◌, ◌||◌, ◌∷◌,
}
use pghoard.Wal.Lsn.{Lsn, wal_seg_size, walfile_name, next_walfile_start_lsn}

-- A message: the LSN at which its data starts, and the data.
pub record Message : Type 0 where
  pub data_start : ℕ
  pub payload : List ℕ

-- What `read_message` brings: a message, an exception of the database, or nothing, after which the
-- wait for the connection may have timed out.
pub data Input : Type 0 where
  message : Message → Input
  database_error : Input
  nothing : Bool → Input

-- An event for the compressor: the name of the segment and its data.
pub record WalData : Type 0 where
  pub name : Text
  pub source_data : List ℕ

-- `callbacks` holds the keys of the dictionary in the order of insertion, `completed_wal_segments`
-- is in ascending order, and `flush_feedback` has the flush positions that were sent.
pub record Receiver : Type 0 where
  pub buffer : List ℕ
  pub latest_wal : Option Text
  pub latest_wal_start : ℕ
  pub callbacks : List ℕ
  pub completed_wal_segments : List ℕ
  pub compression_queue : List WalData
  pub flush_feedback : List ℕ
  pub last_flushed_lsn : Option ℕ
  pub transfer_results : List ℕ

-- A dictionary's new key goes to the end, one that is there stays in its place.
unfoldable pub set_key : ℕ → List ℕ → List ℕ
set_key k [] = k ∷ []
set_key k (j ∷ js) = let rest = set_key k js in if k == j then j ∷ js else j ∷ rest

-- `dict.pop(key)`
unfoldable pub pop_if : Bool → ℕ → List ℕ → Result (List ℕ) → Result (List ℕ)
pop_if true j js rest = ok js
pop_if false j js (ok js') = ok (j ∷ js')
pop_if false j js (raise e) = raise e

unfoldable pub pop_key : ℕ → List ℕ → Result (List ℕ)
unfolding pop_if
pop_key k [] = raise key_error
pop_key k (j ∷ js) = pop_if (k == j) j js (pop_key k js)

-- `set.add`, and `set.discard`
unfoldable pub add_sorted : ℕ → List ℕ → List ℕ
add_sorted k [] = k ∷ []
add_sorted k (j ∷ js) =
    let rest = add_sorted k js in
    if ltb k j then k ∷ j ∷ js else if k == j then j ∷ js else j ∷ rest

unfoldable pub discard : ℕ → List ℕ → List ℕ
discard k [] = []
discard k (j ∷ js) = let rest = discard k js in if k == j then rest else j ∷ rest

-- `self.callbacks and completed_lsn > min(self.callbacks)`
unfoldable pub exceeds_min : ℕ → List ℕ → Bool
exceeds_min k [] = false
exceeds_min k (j ∷ js) = ltb j k || exceeds_min k js

-- `wal_data` is padded with zeros up to the size of a segment.
unfoldable pub padded : List ℕ → List ℕ
padded data_read = data_read ++ replicate (wal_seg_size - length data_read) 0

-- `switch_wal`: without a name of the segment, the path cannot be made.
unfoldable pub switch_wal : Receiver → Result Receiver
unfolding set_key padded
switch_wal r = do
  name ← or_raise r.latest_wal type_error
  guard (leb (length r.buffer) wal_seg_size) assertion_error
  ok (record r {
    buffer = [];
    latest_wal = none;
    callbacks = set_key r.latest_wal_start r.callbacks;
    compression_queue =
        r.compression_queue ++ record { name = name; source_data = padded r.buffer } ∷ [];
  })

-- The first loop of `process_completed_segments`: a result that is there is taken; the segment is
-- added in either case.
unfoldable pub collect : (ℕ → Bool) → List ℕ → Receiver → Receiver
unfolding add_sorted
collect has_result [] r = r
collect has_result (k ∷ ks) r = collect has_result ks (record r {
  completed_wal_segments = add_sorted k r.completed_wal_segments;
  transfer_results = r.transfer_results ++ (if has_result k then k ∷ [] else []);
})

-- The LSN after the segment of an LSN.
unfoldable pub flush_position : ℕ → ℕ
unfolding next_walfile_start_lsn
flush_position k =
    let l : Lsn = record { lsn = k; server_version = none; timeline_id = none } in
    (next_walfile_start_lsn l).lsn

-- The flush of one completed segment, once its key is taken out of the callbacks.
unfoldable pub flush_one : ℕ → List ℕ → Receiver → Receiver
unfolding exceeds_min discard
flush_one k callbacks r =
    if exceeds_min k callbacks then record r { callbacks = callbacks } else record r {
      callbacks = callbacks;
      completed_wal_segments = discard k r.completed_wal_segments;
      flush_feedback = r.flush_feedback ++ flush_position k ∷ [];
      last_flushed_lsn = some (flush_position k);
    }

-- The second loop, over the completed segments in ascending order.
unfoldable pub flush_all : List ℕ → Receiver → Result Receiver
unfolding pop_key flush_one
flush_all [] r = ok r
flush_all (k ∷ ks) r = do callbacks ← pop_key k r.callbacks; flush_all ks (flush_one k callbacks r)

-- `process_completed_segments`; with `block` every queue is waited for, and holds a result then.
unfoldable pub process_completed_segments : (ℕ → Bool) → Receiver → Result Receiver
unfolding collect flush_all
process_completed_segments has_result r =
    let c = collect has_result r.callbacks r in flush_all c.completed_wal_segments c

-- What is written of a message: the name and the start of the segment are set where there is none.
unfoldable pub write_message : Text → Message → Receiver → Receiver
write_message name m r = elim r.latest_wal [
  | none ↦ record r {
    latest_wal = some name;
    latest_wal_start = m.data_start;
    buffer = r.buffer ++ m.payload;
  }
  | some w ↦ record r { buffer = r.buffer ++ m.payload }
]

-- `wal_name and self.latest_wal != wal_name or self.buffer.tell() >= WAL_SEG_SIZE`, for a message
unfoldable pub is_switch_due : Text → Receiver → Bool
is_switch_due name r = elim r.latest_wal [
  | none ↦ true
  | some w ↦ not (text_eq w name) || leb wal_seg_size (length r.buffer)
]

-- What follows once a message is in the buffer.
unfoldable pub finish_message : (ℕ → Bool) → Text → Receiver → Result Receiver
unfolding is_switch_due switch_wal process_completed_segments
finish_message has_result name r =
    (if is_switch_due name r then switch_wal r else ok r) >>= process_completed_segments has_result

module _ (timeline : ℕ) (pg_version_server : Option ℕ) where
  unfoldable pub name_of : Message → Result Text
  name_of m = walfile_name (record {
    lsn = m.data_start;
    server_version = pg_version_server;
    timeline_id = some timeline;
  })

  unfoldable pub make_room : (ℕ → Bool) → Message → Receiver → Result Receiver
  unfolding switch_wal process_completed_segments
  make_room has_result m r =
      if ltb 0 (length r.buffer) && ltb wal_seg_size (length r.buffer + length m.payload)
      then switch_wal r >>= process_completed_segments has_result
      else ok r

  unfoldable pub handle_message : (ℕ → Bool) → Message → Receiver → Result Receiver
  unfolding name_of make_room write_message finish_message
  handle_message has_result m r = do
    name ← name_of m
    r' ← make_room has_result m r
    finish_message has_result name (write_message name m r')

  -- An unfinished segment does not wait longer than the interval of the keepalives.
  unfoldable pub keep_alive : (ℕ → Bool) → Bool → Receiver → Result Receiver
  unfolding switch_wal process_completed_segments
  keep_alive has_result timed_out r =
      if timed_out && ltb 0 (length r.buffer)
      then switch_wal r >>= process_completed_segments has_result
      else ok r

  -- One round of the loop.
  unfoldable pub round : (ℕ → Bool) → Input → Receiver → Result Receiver
  unfolding handle_message keep_alive switch_wal process_completed_segments
  round has_result (message m) r = handle_message has_result m r
  round has_result database_error r = ok r
  round has_result (nothing timed_out) r = do
    r' ← if leb wal_seg_size (length r.buffer) then switch_wal r else ok r
    r'' ← process_completed_segments has_result r'
    keep_alive has_result timed_out r''
