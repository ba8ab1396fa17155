-- ===== src/Tests/Transfer.antt =====
-- Concrete inputs for the theorems about the transfer agent.
use pghoard.Base.{
  All, Bool, Error, Option, Text, [], codes, none, os_error, some, suc, true, zero, ℕ, ◌∷◌, ◌≡◌,
}
use pghoard.Transfer.Stats.{upload, FileType, wal, Outcome}
use pghoard.Transfer.Agent.{UploadEvent, Agent, rounds}
use pghoard.Transfer.Agent.Retries.{IsUploaded, IsAtLimit, events, events-rounds}

abbrev uploaded : FileType → Outcome
uploaded type = record {
  site = codes "s";
  operation = upload;
  file_type = type;
  filename = codes "f";
  oper_size = 10;
  finished_at = 5;
  took = 1;
}

abbrev segment : ℕ → UploadEvent
segment n = record {
  backup_site_name = codes "s";
  file_path = codes "xlog/f";
  file_type = wal;
  source_is_path = true;
  remove_after_upload = true;
  retry_number = n;
}

abbrev agent : ℕ → Agent ℕ
agent n = record {
  transfer_queue = segment n ∷ segment 0 ∷ [];
  finished = [];
  lost = none;
  slept = 0;
  outside = 0;
}

-- A store that fails at its first call and counts the calls, and one that always fails.
abbrev fails_first : ℕ → UploadEvent → Option Error × ℕ
fails_first zero u = (some os_error, 1)
fails_first (suc n) u = (none, suc (suc n))

abbrev fails : ℕ → UploadEvent → Option Error × ℕ
fails n u = (some os_error, n)

abbrev keeps : ℕ → UploadEvent → ℕ
keeps n u = n

abbrev any_file : Text → Text → Bool
any_file site path = true

events-rounds_example :
    (events any_file (rounds fails_first keeps 2 (agent 0)) ≡ events any_file (agent 0))
    × All (IsUploaded fails_first keeps) (rounds fails_first keeps 2 (agent 0)).finished
    × IsAtLimit fails_first keeps (rounds fails_first keeps 2 (agent 0)).lost
events-rounds_example = events-rounds fails_first keeps any_file 2 (agent 0) tt tt
