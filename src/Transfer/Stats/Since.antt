-- ===== src/Transfer/Stats/Since.antt =====
-- The count of WAL files since the last base backup, in the statistics of pghoard/transfer.py.
use pghoard.Base.{
  Bool, List, Text, [], arith, false, if◌then◌else◌, refl, text_eq, true, ℕ, ◌&&◌, ◌++◌, ◌+◌, ◌∙◌,
  ◌∷◌, ◌≡◌,
}
use pghoard.Transfer.Stats.{
  TransferOperation, upload, FileType, wal, timeline, basebackup, basebackup_chunk,
  basebackup_delta, basebackup_delta_chunk, Stats, State, Outcome, update, note_upload,
  note_operation, note_success, note_failure, note_all,
}

-- The uploads of a WAL file, and those of a part of a base backup.
abbrev pub wal_upload : TransferOperation → FileType → ℕ
wal_upload upload wal = 1
wal_upload _ _ = 0

abbrev pub base_upload : TransferOperation → FileType → ℕ
base_upload upload wal = 0
base_upload upload timeline = 0
base_upload upload _ = 1
base_upload _ _ = 0

-- How many successes at a site are such uploads.
unfoldable pub successes : (TransferOperation → FileType → ℕ) → Text → List (Bool × Outcome) → ℕ
successes kind site [] = 0
successes kind site ((true, o) ∷ os) =
    (if text_eq site o.site then kind o.operation o.file_type else 0) + successes kind site os
successes kind site ((false, o) ∷ os) = successes kind site os

-- The counter of a site.
abbrev pub xlogs : Text → State → ℕ
xlogs site state = (state site upload wal).xlogs_since_basebackup

kept_if :
    (b : Bool) (x y : Stats)
    → x.xlogs_since_basebackup ≡ y.xlogs_since_basebackup
    → (if b then x else y).xlogs_since_basebackup ≡ y.xlogs_since_basebackup
kept_if true x y h = h
kept_if false x y h = refl

noted_if :
    (b : Bool) (type : FileType) (st : Stats)
    → (if b then base_upload upload type else 0) ≡ 0
    → (if b && true then note_upload type st else st).xlogs_since_basebackup
      ≡ st.xlogs_since_basebackup + (if b then wal_upload upload type else 0)
unfolding note_upload
noted_if false type st h = omega arith
noted_if true wal st h = omega arith
noted_if true timeline st h = omega arith
noted_if true basebackup st h = omega arith
noted_if true basebackup_chunk st h = omega arith
noted_if true basebackup_delta st h = omega arith
noted_if true basebackup_delta_chunk st h = omega arith

none_if : (b : Bool) (n : ℕ) → n ≡ n + (if b then 0 else 0)
none_if true n = omega arith
none_if false n = omega arith

xlogs-note_operation :
    (op : TransferOperation) (site : Text) (o : Outcome) (state : State)
    → (if text_eq site o.site then base_upload op o.file_type else 0) ≡ 0
    → xlogs site (note_operation op o state)
      ≡ xlogs site state + (if text_eq site o.site then wal_upload op o.file_type else 0)
unfolding note_operation update
xlogs-note_operation upload site o state h =
    noted_if (text_eq site o.site) o.file_type (state site upload wal) h
xlogs-note_operation TransferOperation.download site o state h = none_if (text_eq site o.site) _
xlogs-note_operation TransferOperation.list site o state h = none_if (text_eq site o.site) _
xlogs-note_operation TransferOperation.metadata site o state h = none_if (text_eq site o.site) _

xlogs-note_success :
    (site : Text) (o : Outcome) (state : State)
    → (if text_eq site o.site then base_upload o.operation o.file_type else 0) ≡ 0
    → xlogs site (note_success o state)
      ≡ xlogs site state + (if text_eq site o.site then wal_upload o.operation o.file_type else 0)
unfolding note_success update
xlogs-note_success site o state h =
    kept_if _ _ _ refl ∙ xlogs-note_operation o.operation site o state h

xlogs-note_failure :
    (site : Text) (o : Outcome) (state : State)
    → xlogs site (note_failure o state) ≡ xlogs site state
unfolding note_failure update
xlogs-note_failure site o state = kept_if _ _ _ refl

xlogs-note_all :
    (site : Text) (os : List (Bool × Outcome)) (state : State)
    → successes base_upload site os ≡ 0
    → xlogs site (note_all os state) ≡ xlogs site state + successes wal_upload site os
unfolding note_all successes note_failure update
xlogs-note_all site [] state h = omega arith
xlogs-note_all site ((true, o) ∷ os) state h = omega (
  arith,
  xlogs-note_all site os (note_success o state) (omega arith),
  xlogs-note_success site o state (omega arith),
)
xlogs-note_all site ((false, o) ∷ os) state h =
    omega (arith, xlogs-note_all site os (note_failure o state) h, xlogs-note_failure site o state)

reset_if :
    (b : Bool) (type : FileType) (st : Stats)
    → b ≡ true
    → base_upload upload type ≡ 1
    → (if b && true then note_upload type st else st).xlogs_since_basebackup ≡ 0
unfolding note_upload
reset_if false type st e h = cc
reset_if true wal st e h = omega arith
reset_if true timeline st e h = omega arith
reset_if true basebackup st e h = refl
reset_if true basebackup_chunk st e h = refl
reset_if true basebackup_delta st e h = refl
reset_if true basebackup_delta_chunk st e h = refl

xlogs-reset :
    (op : TransferOperation) (site : Text) (o : Outcome) (state : State)
    → text_eq site o.site ≡ true
    → base_upload op o.file_type ≡ 1
    → xlogs site (note_operation op o state) ≡ 0
unfolding note_operation update
xlogs-reset upload site o state e h =
    reset_if (text_eq site o.site) o.file_type (state site upload wal) e h
xlogs-reset TransferOperation.download site o state e h = omega arith
xlogs-reset TransferOperation.list site o state e h = omega arith
xlogs-reset TransferOperation.metadata site o state e h = omega arith

xlogs-note_success_reset :
    (site : Text) (o : Outcome) (state : State)
    → text_eq site o.site ≡ true
    → base_upload o.operation o.file_type ≡ 1
    → xlogs site (note_success o state) ≡ 0
unfolding note_success update
xlogs-note_success_reset site o state e h =
    kept_if _ _ _ refl ∙ xlogs-reset o.operation site o state e h

-- After the upload of a part of a base backup of a site, followed by results without another one,
-- the counter of the site is the number of its WAL files uploaded since, whatever came before and
-- whatever fails or is of other sites, operations and types.
pub xlogs-note_all_since :
    (site : Text) (before : List (Bool × Outcome)) (o : Outcome) (after : List (Bool × Outcome))
    (state : State)
    → text_eq site o.site ≡ true
    → base_upload o.operation o.file_type ≡ 1
    → successes base_upload site after ≡ 0
    → xlogs site (note_all (before ++ (true, o) ∷ after) state) ≡ successes wal_upload site after
unfolding note_all
xlogs-note_all_since site [] o after state e b h = omega (
  arith,
  xlogs-note_all site after (note_success o state) h,
  xlogs-note_success_reset site o state e b,
)
xlogs-note_all_since site ((true, x) ∷ before) o after state e b h =
    xlogs-note_all_since site before o after (note_success x state) e b h
xlogs-note_all_since site ((false, x) ∷ before) o after state e b h =
    xlogs-note_all_since site before o after (note_failure x state) e b h
