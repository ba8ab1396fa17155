-- ===== src/Backups/WalSweep/Safety.antt =====
-- Which segments the loop of `delete_remote_wal_before` of pghoard/pghoard.py tries to delete.
use pghoard.Base.{
  All, Bool, Bool-cases, Option, Option-cases, Result, Text, arith, false, inl, inr, leb, none, not,
  ok, raise, refl, some, suc, true, zero, ℕ, ◌+◌, ◌-◌, ◌/◌, ◌<◌, ◌^◌, ◌||◌, ◌∙◌, ◌≡◌, ◌≤◌,
}
use pghoard.Wal.Hex.{int16}
use pghoard.Wal.Lsn.{
  Lsn, from_walfile_name, walfile_name, previous_walfile_start_lsn, walfile_start_lsn, at_timeline,
}
use pghoard.Backups.WalSweep.{
  Deletion, deleted, not_found, failed, Sweep, finished, raised, out_of_fuel, tried, wal_path,
  after_deletion, at_key, at_name, step_back, sweep,
}

-- The segment is before a bound, on one of the timelines up to another bound.
pub record IsBefore (bound t : ℕ) (l : Lsn) : Type 0 where
  pub earlier : l.lsn < bound
  pub timeline : (u : ℕ) × (l.timeline_id ≡ some u) × (u ≤ t)

-- What holds at the head of the loop.
abbrev Ready : ℕ → ℕ → Lsn → Bool → Type 0
Ready bound t l true = (l.lsn ≤ bound) × ((u : ℕ) × (l.timeline_id ≡ some u) × (u ≤ t))
Ready bound t l false = IsBefore bound t l

abbrev pub AllTried : {S : Type 0} → (Lsn → Type 0) → Sweep S → Type 0
AllTried P (finished ls s) = All P ls
AllTried P (raised ls e) = All P ls
AllTried P (out_of_fuel ls) = All P ls

AllTried-tried :
    {S : Type 0} (P : Lsn → Type 0) (l : Lsn) (r : Sweep S)
    → P l
    → AllTried P r
    → AllTried P (tried l r)
AllTried-tried P l (finished ls s) h k = (h, k)
AllTried-tried P l (raised ls e) h k = (h, k)
AllTried-tried P l (out_of_fuel ls) h k = (h, k)

-- The segment before is at least one segment earlier, on the same timeline.
pub previous_fields :
    (l p : Lsn)
    → previous_walfile_start_lsn l ≡ some p
    → (p.lsn + 2 ^ 24 ≤ l.lsn) × (p.timeline_id ≡ l.timeline_id)
unfolding previous_walfile_start_lsn walfile_start_lsn
previous_fields l p e = ground arith

previous_IsBefore :
    (bound t : ℕ) (l p : Lsn)
    → Ready bound t l true
    → previous_walfile_start_lsn l ≡ some p
    → IsBefore bound t p
previous_IsBefore bound t l p (below, timeline) found =
    let (step, same) = previous_fields l p found in
    record { earlier = omega arith; timeline = (timeline.0, same ∙ timeline.1, timeline.2) }

older :
    (bound t : ℕ) (l : Lsn) (u : ℕ)
    → IsBefore bound t l
    → l.timeline_id ≡ some u
    → IsBefore bound t (at_timeline l (u - 1))
unfolding at_timeline
older bound t l u h e =
    let (w, found, le) = h.timeline in
    let same : w ≡ u = cc in record { earlier = h.earlier; timeline = (u - 1, refl, omega arith) }

module _ {S : Type 0} (delete_key : S → Text → Deletion × S) (prefix : Text) (bound t : ℕ) where
  abbrev Safe : (S → Lsn → Bool → Sweep S) → Type 0
  Safe next =
      (s : S) (l : Lsn) (v : Bool) → Ready bound t l v → AllTried (IsBefore bound t) (next s l v)

  after_deletion-Safe :
      (next : S → Lsn → Bool → Sweep S) (l : Lsn) (v : Bool) (u : ℕ) (d : Deletion × S)
      → Safe next
      → IsBefore bound t l
      → l.timeline_id ≡ some u
      → AllTried (IsBefore bound t) (after_deletion delete_key prefix next l v u d)
  unfolding after_deletion
  after_deletion-Safe next l v u (deleted, s) safe h e =
      AllTried-tried (IsBefore bound t) l _ h (safe s l true (omega arith, h.timeline))
  after_deletion-Safe next l v u (not_found, s) safe h e = elim (Bool-cases (not v || leb u 1)) [
    | inl last ↦ rw last (h, tt)
    | inr more ↦ rw more (
        AllTried-tried (IsBefore bound t) l _ h
          (safe s (at_timeline l (u - 1)) false (older bound t l u h e)))
  ]
  after_deletion-Safe next l true u (failed, s) safe h e =
      AllTried-tried (IsBefore bound t) l _ h (safe s l true (omega arith, h.timeline))
  after_deletion-Safe next l false u (failed, s) safe h e =
      AllTried-tried (IsBefore bound t) l _ h (safe s l false h)

  at_key-Safe :
      (next : S → Lsn → Bool → Sweep S) (s : S) (l : Lsn) (v : Bool) (o : Option ℕ) (name : Text)
      → Safe next
      → IsBefore bound t l
      → l.timeline_id ≡ o
      → AllTried (IsBefore bound t) (at_key delete_key prefix next s l v o name)
  unfolding at_key
  at_key-Safe next s l v none name safe h e = tt
  at_key-Safe next s l v (some u) name safe h e =
      after_deletion-Safe next l v u (delete_key s (wal_path prefix name)) safe h e

  at_name-Safe :
      (next : S → Lsn → Bool → Sweep S) (s : S) (l : Lsn) (v : Bool) (r : Result Text)
      → Safe next
      → IsBefore bound t l
      → AllTried (IsBefore bound t) (at_name delete_key prefix next s l v r)
  unfolding at_name
  at_name-Safe next s l v (raise e) safe h = tt
  at_name-Safe next s l v (ok name) safe h = at_key-Safe next s l v l.timeline_id name safe h refl

  step_back-Safe :
      (next : S → Lsn → Bool → Sweep S) (s : S) (l : Lsn) (o : Option Lsn)
      → Safe next
      → Ready bound t l true
      → previous_walfile_start_lsn l ≡ o
      → AllTried (IsBefore bound t) (step_back delete_key prefix next s o)
  unfolding step_back
  step_back-Safe next s l none safe h e = tt
  step_back-Safe next s l (some p) safe h e =
      at_name-Safe next s p true (walfile_name p) safe (previous_IsBefore bound t l p h e)

  pub sweep-Safe : (fuel : ℕ) → Safe (sweep delete_key prefix fuel)
  unfolding sweep
  sweep-Safe zero s l v h = tt
  sweep-Safe (suc fuel) s l true h =
      step_back-Safe (sweep delete_key prefix fuel) s l (previous_walfile_start_lsn l)
        (sweep-Safe fuel) h refl
  sweep-Safe (suc fuel) s l false h =
      at_name-Safe (sweep delete_key prefix fuel) s l false (walfile_name l) (sweep-Safe fuel) h

-- A name that can be read has a timeline.
pub from_walfile_name_timeline :
    (name : Text) (v : Option ℕ) (l : Lsn)
    → from_walfile_name name v ≡ ok l
    → (t : ℕ) × (l.timeline_id ≡ some t)
unfolding from_walfile_name
from_walfile_name_timeline name v l e = elim (Option-cases (int16 name)) [
  | inl bad ↦ absurd (ground arith)
  | inr (n, good) ↦ (n / 2 ^ 64, ground arith)
]
