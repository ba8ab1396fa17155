-- ===== src/Basebackup/Session/Settled.antt =====
-- `Session.antt`: what the statements of a log leave running on the server.
use pghoard.Base.{
  Bool, Result, [], false, inl, inr, ok, raise, refl, true, ◌||◌, ◌∷◌, ◌≡◌, ◌≢◌, ◌⊎◌,
}
use pghoard.Basebackup.Session.{
  Statement, pg_backup_start, pg_start_backup, pg_backup_stop, pg_stop_backup,
  labelfile_of_backup_stop, labelfile_of_stop_backup, rollback, Row, Log, Db, succeeded,
  continue_with, ◌>>=◌,
}

pub data Kind : Type 0 where
  starts stops ends_transaction reads : Kind

unfoldable pub kind : Statement → Kind
kind (pg_backup_start name) = starts
kind (pg_start_backup name) = starts
kind pg_backup_stop = stops
kind pg_stop_backup = stops
kind labelfile_of_backup_stop = stops
kind labelfile_of_stop_backup = stops
kind rollback = ends_transaction
kind _ = reads

running_after : Kind → Bool → Bool → Bool
running_after starts true before = true
running_after stops true before = false
running_after _ _ before = before

-- Whether a backup is running on the server after the statements.
unfoldable pub running : Log → Bool
unfolding kind running_after
running [] = false
running ((statement, success) ∷ log) = running_after (kind statement) success (running log)

fails_clean_up : Kind → Bool → Bool
fails_clean_up stops false = true
fails_clean_up ends_transaction false = true
fails_clean_up _ _ = false

-- Whether a stop of a backup, or a rollback before it, has failed.
unfoldable pub clean_up_failed : Log → Bool
unfolding kind fails_clean_up
clean_up_failed [] = false
clean_up_failed ((statement, success) ∷ log) =
    fails_clean_up (kind statement) success || clean_up_failed log

-- No backup is left running, unless its clean-up failed.
unfoldable pub IsSettled : Log → Type 0
IsSettled log = (running log ≡ false) ⊎ (clean_up_failed log ≡ true)

-- The rest of a session settles whenever what it begins with does.
unfoldable pub Settles : {A : Type 0} → Db A → Type 0
Settles m = (log : Log) → IsSettled log → IsSettled (m log).1

pub continue_with-IsSettled :
    {A B : Type 0} (r : Result A × Log) (next : A → Db B)
    → IsSettled r.1
    → ((a : A) → Settles (next a))
    → IsSettled (continue_with r next).1
unfolding Settles
continue_with-IsSettled (ok a, log) next s f = f a log s
continue_with-IsSettled (raise error, log) next s f = s

pub >>=-Settles :
    {A B : Type 0} (m : Db A) (next : A → Db B)
    → Settles m
    → ((a : A) → Settles (next a))
    → Settles (m >>= next)
unfolding Settles
>>=-Settles m next f g log s = continue_with-IsSettled (m log) next (f log s) g

-- A statement that starts nothing.
pub step-IsSettled :
    (statement : Statement) (k : Kind) (success : Bool) (log : Log)
    → kind statement ≡ k
    → k ≢ starts
    → IsSettled log
    → IsSettled ((statement, success) ∷ log)
unfolding IsSettled running clean_up_failed running_after fails_clean_up
step-IsSettled statement starts success log e h s = absurd (h refl)
step-IsSettled statement stops true log e h s = rw e (inl refl)
step-IsSettled statement stops false log e h s = rw e (inr refl)
step-IsSettled statement ends_transaction true log e h s = rw e s
step-IsSettled statement ends_transaction false log e h s = rw e (inr refl)
step-IsSettled statement reads success log e h s = rw e s

-- Whatever was before, no backup is left running.
unfoldable pub IsEnd : {A : Type 0} → Db A → Type 0
IsEnd m = (log : Log) → IsSettled (m log).1

-- A start of a backup, before what ends it.
pub start-IsSettled :
    {B : Type 0} (statement : Statement) (row : Result Row) (log : Log) (next : Row → Db B)
    → kind statement ≡ starts
    → IsSettled log
    → ((a : Row) → IsEnd (next a))
    → IsSettled (continue_with (row, (statement, succeeded row) ∷ log) next).1
unfolding IsSettled running clean_up_failed running_after fails_clean_up IsEnd
start-IsSettled statement (ok row) log next e s f = f row ((statement, true) ∷ log)
start-IsSettled statement (raise error) log next e s f = rw e s

-- A rollback, before what ends the backup.
pub rollback-IsSettled :
    {B : Type 0} (row : Result Row) (log : Log) (next : Row → Db B)
    → ((a : Row) → IsEnd (next a))
    → IsSettled (continue_with (row, (rollback, succeeded row) ∷ log) next).1
unfolding IsSettled clean_up_failed fails_clean_up kind IsEnd
rollback-IsSettled (ok row) log next f = f row ((rollback, true) ∷ log)
rollback-IsSettled (raise error) log next f = inr refl

-- A stop ends every backup, or has failed.
pub stop-IsSettled :
    (statement : Statement) (success : Bool) (log : Log)
    → kind statement ≡ stops
    → IsSettled ((statement, success) ∷ log)
unfolding IsSettled running clean_up_failed running_after fails_clean_up
stop-IsSettled statement true log e = rw e (inl refl)
stop-IsSettled statement false log e = rw e (inr refl)

-- A successful body has stopped the backup.
unfoldable pub HasStopped : {A : Type 0} → Result A × Log → Type 0
HasStopped (ok a, log) = IsSettled log
HasStopped (raise error, log) = Unit

pub continue_with-HasStopped :
    {A B : Type 0} (r : Result A × Log) (next : A → Db B)
    → ((a : A) (log : Log) → HasStopped (next a log))
    → HasStopped (continue_with r next)
unfolding HasStopped
continue_with-HasStopped (ok a, log) next f = f a log
continue_with-HasStopped (raise error, log) next f = tt

pub weaken : {A : Type 0} (r : Result A × Log) → IsSettled r.1 → HasStopped r
unfolding HasStopped
weaken (ok a, log) s = s
weaken (raise error, log) s = tt
