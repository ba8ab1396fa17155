-- ===== src/Tests/Compressor.antt =====
-- Concrete inputs for the theorems about the compressor thread and the WAL file deleter.
use pghoard.Base.{
  Bool, Error, List, Option, Text, [], codes, false, if◌then◌else◌, none, os_error, refl, some, suc,
  text_eq, text_lt, true, zero, ℕ, ◌+◌, ◌∷◌,
}
use pghoard.Compressor.Deleter.{Unlinked, unlinked, file_not_found, add_file, handle_deletion}
use pghoard.Compressor.Deleter.Latest.{AreKept, handle_deletion-AreKept}
use pghoard.Compressor.Loop.{Event, compression, run}
use pghoard.Compressor.Loop.Retries.{Completed, run-Completed}

-- A file system that knows one file only, and counts the calls.
abbrev unlink_c : ℕ → Text → Unlinked × ℕ
unlink_c n path = (if text_eq path (codes "c") then unlinked else file_not_found, n + 1)

abbrev three_files : List Text
three_files = codes "a" ∷ codes "c" ∷ codes "d" ∷ []

handle_deletion-AreKept_example :
    AreKept unlink_c
      (add_file (codes "s") (codes "b") ((codes "s", three_files) ∷ []))
      0
      (handle_deletion unlink_c (codes "s") (some (codes "b")) ((codes "s", three_files) ∷ []) 0)
unfolding text_lt
handle_deletion-AreKept_example =
    handle_deletion-AreKept unlink_c b's' [] (codes "b") ((codes "s", three_files) ∷ []) 0
      ((refl, (refl, tt)), tt)

-- A handler that fails at its first call, and counts the calls.
abbrev fails_once : ℕ → ℕ → Option Error × ℕ
fails_once zero e = (some os_error, 1)
fails_once (suc n) e = (none, suc (suc n))

abbrev goes_on : ℕ → Bool × ℕ
goes_on n = (false, n)

abbrev events : List (Event ℕ)
events = compression 7 true true ∷ compression 8 false true ∷ []

run-Completed_example : Completed fails_once goes_on events 0 2
unfolding run
run-Completed_example = run-Completed fails_once goes_on events 0 refl
