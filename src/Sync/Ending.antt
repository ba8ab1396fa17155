-- ===== src/Sync/Ending.antt =====
-- The end of the loop in `check_wal_archive_integrity` of pghoard/archive_sync.py.
use pghoard.Base.{
  Bool, Bool-cases, Option, Option-cases, Result, Text, arith, false, inl, inr, none, ok, raise,
  refl, some, suc, true, zero, ℕ, ◌*◌, ◌+◌, ◌/◌, ◌^◌, ◌≡◌, ◌≤◌, ◌⊎◌,
}
use pghoard.Wal.Lsn.{
  Lsn, equals, from_walfile_name, walfile_name, previous_walfile_start_lsn, at_timeline,
}
use pghoard.Backups.WalSweep.Safety.{previous_fields}
use pghoard.Sync.{
  Walk, complete, incomplete, raised, out_of_fuel, with_found, after_head, ask, ask_before, walk,
  walk_from, integrity_walk,
}

-- The walk came to an end of the code.
unfoldable pub has_ended : Walk → Bool
has_ended out_of_fuel = false
has_ended _ = true

has_ended-with_found : (l : Lsn) (w : Walk) → has_ended w ≡ true → has_ended (with_found l w) ≡ true
unfolding has_ended
has_ended-with_found l (complete ls) h = refl
has_ended-with_found l (incomplete m) h = refl
has_ended-with_found l (raised e) h = refl
has_ended-with_found l out_of_fuel h = h

-- The rounds that a state of the loop still needs.
rounds_left : Lsn → Bool → ℕ
rounds_left l true = 2 * (l.lsn / 2 ^ 24) + 1
rounds_left l false = 2 * (l.lsn / 2 ^ 24) + 2

module _ (head : Text → Bool) (first_required : Lsn) where
  after_head-has_ended :
      (next : Lsn → Bool → Walk) (l : Lsn) (v : Bool) (t : Option ℕ) (b : Bool)
      → has_ended (next l true) ≡ true
      → (v ≡ false) ⊎ ((t : ℕ) → has_ended (next (at_timeline l t) false) ≡ true)
      → has_ended (after_head head first_required next l v t b) ≡ true
  unfolding after_head has_ended
  after_head-has_ended next l v t true h k = elim (Bool-cases (equals l first_required)) [
    | inl e ↦ rw e refl
    | inr e ↦ rw e (has_ended-with_found l (next l true) h)
  ]
  after_head-has_ended next l true (some (suc t)) false h (inl k) = cc
  after_head-has_ended next l true (some (suc t)) false h (inr k) = k t
  after_head-has_ended next l true (some zero) false h k = refl
  after_head-has_ended next l true none false h k = refl
  after_head-has_ended next l false t false h k = refl

  ask-has_ended :
      (next : Lsn → Bool → Walk) (l : Lsn) (v : Bool) (name : Result Text)
      → has_ended (next l true) ≡ true
      → (v ≡ false) ⊎ ((t : ℕ) → has_ended (next (at_timeline l t) false) ≡ true)
      → has_ended (ask head first_required next l v name) ≡ true
  unfolding ask
  ask-has_ended next l v (raise e) h k = unfold has_ended in refl
  ask-has_ended next l v (ok name) h k = after_head-has_ended next l v l.timeline_id (head name) h k

  walk-has_ended :
      (fuel : ℕ) (l : Lsn) (v : Bool)
      → rounds_left l v ≤ fuel
      → has_ended (walk head first_required fuel l v) ≡ true
  unfolding walk rounds_left
  walk-has_ended zero l true h = absurd (omega arith)
  walk-has_ended zero l false h = absurd (omega arith)
  walk-has_ended (suc fuel) l false h =
      ask-has_ended (walk head first_required fuel) l false (walfile_name l)
        (walk-has_ended fuel l true (omega arith)) (inl refl)
  walk-has_ended (suc fuel) l true h = elim (Option-cases (previous_walfile_start_lsn l)) [
    | inl e ↦ rw e (unfold ask_before has_ended in refl)
    | inr (p, e) ↦
        let step : p.lsn + 2 ^ 24 ≤ l.lsn = (previous_fields l p e).0 in
        rw e (
          unfold ask_before in
          ask-has_ended (walk head first_required fuel) p true (walfile_name p)
            (walk-has_ended fuel p true (omega arith))
            (inr (λ t.
              walk-has_ended fuel (at_timeline p t) false (unfold at_timeline in omega arith))))
  ]

walk_from-has_ended :
    (head : Text → Bool) (l first_required : Result Lsn)
    → has_ended (walk_from head l first_required) ≡ true
unfolding walk_from
walk_from-has_ended head (raise e) f = unfold has_ended in refl
walk_from-has_ended head (ok l) (raise e) = unfold has_ended in refl
walk_from-has_ended head (ok l) (ok f) =
    walk-has_ended head f (2 * (l.lsn / 2 ^ 24) + 1) l true (unfold rounds_left in omega arith)

-- Whatever the archive holds, the check of its integrity ends: two rounds for each segment before the
-- current one are enough.
pub integrity_walk_ends :
    (head : Text → Bool) (current first_required : Text) (pg_version : Option ℕ)
    → has_ended (integrity_walk head current first_required pg_version) ≡ true
unfolding integrity_walk
integrity_walk_ends head current first_required pg_version =
    walk_from-has_ended head (from_walfile_name current pg_version)
      (from_walfile_name first_required pg_version)
