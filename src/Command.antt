-- ===== src/Command.antt =====
-- pghoard/postgres_command.py: the commands that PostgreSQL calls to archive and to restore a file.
-- A reply is the HTTP status, or none where the connection fails; another exception of a request
-- goes through. The paths of the request are not modelled.
pub mod Codes
use pghoard.Base.{
  Bool, Text, [], codes, drop, false, if◌then◌else◌, leb, length, not, suc, text_eq, true, zero, ℕ,
  ◌&&◌, ◌+◌, ◌-◌, ◌==◌, ◌||◌, ◌∷◌,
}
use pghoard.Wal.Lsn.{is_wal_name, is_timeline_name}

abbrev pub exit_ok : ℕ
exit_ok = 0

abbrev pub exit_unexpected : ℕ
exit_unexpected = 2

abbrev pub exit_archive_fail : ℕ
exit_archive_fail = 3

abbrev pub exit_not_found : ℕ
exit_not_found = 4

abbrev pub exit_abort : ℕ
exit_abort = 255

-- What comes of one HTTP request.
pub data Reply : Type 0 where
  answered : ℕ → Reply
  disconnected broken : Reply

-- How a command ends: it returns, with a PGCError of an exit code, or with another exception.
pub data Ended : Type 0 where
  returned : Ended
  pgc_error : ℕ → Ended
  exception : Ended

-- `xlog.endswith(".backup")`
unfoldable pub is_backup_label : Text → Bool
is_backup_label xlog =
    leb 7 (length xlog) && text_eq (drop (length xlog - 7) xlog) (codes ".backup")

unfoldable pub archive_reply : Reply → Ended
archive_reply (answered status) = if status == 201 then returned else pgc_error exit_archive_fail
archive_reply _ = exception

unfoldable pub archive_command : Text → Reply → Ended
unfolding is_backup_label archive_reply
archive_command xlog reply = if is_backup_label xlog then returned else archive_reply reply

-- The status of the last request, by the method.
unfoldable pub restore_status : Bool → ℕ → Ended
restore_status is_get status =
    if (is_get && status == 201) || (not is_get && status == 200)
    then returned
    else if status == 404
    then pgc_error exit_not_found
    else pgc_error exit_abort

unfoldable pub restore_reply : Bool → Ended → Reply → Ended
unfolding restore_status
restore_reply is_get again (answered status) = restore_status is_get status
restore_reply is_get again disconnected = again
restore_reply is_get again broken = exception

-- The attempts from one on, with the number of those that are left; `retry_count` is at least 1.
unfoldable pub attempts : Bool → (ℕ → Reply) → ℕ → ℕ → Ended
unfolding restore_reply
attempts is_get replies attempt zero = restore_reply is_get (pgc_error exit_abort) (replies attempt)
attempts is_get replies attempt (suc retries) =
    restore_reply is_get (attempts is_get replies (attempt + 1) retries) (replies attempt)

-- What is beside the output: no prefetched file, one that is renamed, or one whose rename fails.
pub data Prefetched : Type 0 where
  nothing renamed not_renamed : Prefetched

unfoldable pub after_prefetch : Prefetched → (ℕ → Reply) → Ended
unfolding attempts
after_prefetch nothing replies = attempts true replies 0 2
after_prefetch renamed replies = returned
after_prefetch not_renamed replies = exception

-- `restore_command` with the default of three attempts.
unfoldable pub restore_command : Text → Text → Prefetched → (ℕ → Reply) → Ended
unfolding after_prefetch attempts
restore_command xlog [] prefetched replies = attempts false replies 0 2
restore_command xlog (c ∷ output) prefetched replies =
    after_prefetch (if is_wal_name xlog || is_timeline_name xlog then prefetched else nothing)
      replies

-- The exit code of `main`, with the one for unexpected exceptions.
unfoldable pub exit_code : ℕ → Ended → ℕ
exit_code fail_exit_code returned = exit_ok
exit_code fail_exit_code (pgc_error code) = code
exit_code fail_exit_code exception = fail_exit_code

-- `main` on parsed arguments, by the mode.
unfoldable pub main_archive : Text → Reply → ℕ
unfolding archive_command exit_code
main_archive xlog reply = exit_code exit_unexpected (archive_command xlog reply)

unfoldable pub main_restore : Text → Text → Prefetched → (ℕ → Reply) → ℕ
unfolding restore_command exit_code
main_restore xlog output prefetched replies =
    exit_code exit_abort (restore_command xlog output prefetched replies)
