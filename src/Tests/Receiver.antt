-- ===== src/Tests/Receiver.antt =====
-- Concrete inputs for the theorems about the WAL receiver.
use pghoard.Base.{Bool, List, [], arith, codes, false, none, ok, refl, some, ℕ, ◌∷◌, ◌≡◌}
use pghoard.Receiver.{Message, Receiver, process_completed_segments}
use pghoard.Receiver.Flush.{IsProcessed, process_completed_segments-IsProcessed}

-- Two segments wait for their transfers, and a third one is being received.
abbrev receiving : Receiver
receiving = record {
  buffer = 1 ∷ 2 ∷ [];
  latest_wal = some (codes "000000010000000000000002");
  latest_wal_start = 33554432;
  callbacks = 16777216 ∷ 0 ∷ [];
  completed_wal_segments = [];
  compression_queue = [];
  flush_feedback = [];
  last_flushed_lsn = none;
  transfer_results = [];
}

abbrev no_result : ℕ → Bool
no_result k = false

process_completed_segments-IsProcessed_example :
    (r' : Receiver) × (ks : List ℕ) × ((process_completed_segments no_result receiving ≡ ok r')
      × IsProcessed ks receiving r')
process_completed_segments-IsProcessed_example =
    process_completed_segments-IsProcessed no_result receiving (((λ h. omega arith), tt), (tt, tt))
      refl

-- A message at the start of the next segment.
abbrev next_segment : Message
next_segment = record { data_start = 50331648; payload = 3 ∷ [] }
