-- ===== src/Backups/WalSweep/Ending.antt =====
-- When the loop of `delete_remote_wal_before` of pghoard/pghoard.py ends.
use pghoard.Base.{
  Bool, Bool-cases, List, Option, Text, [], ap, arith, false, inl, inr, leb, none, ok, refl, some,
  suc, sym, true, zero, ℕ, ◌%◌, ◌*◌, ◌++◌, ◌+◌, ◌-◌, ◌/◌, ◌^◌, ◌∙◌, ◌∷◌, ◌≡◌, ◌≢◌, ◌≤◌,
}
use mathlib.Core.Path.{subst}
use pghoard.Wal.Hex.{hex08}
use pghoard.Wal.Lsn.{
  seg, segments_per_xlogid, Lsn, from_walfile_name, walfile_name, previous_walfile_start_lsn,
  at_timeline,
}
use pghoard.Backups.WalSweep.{
  Deletion, deleted, not_found, failed, Sweep, finished, raised, out_of_fuel, tried, wal_path,
  after_deletion, attempt, at_key, at_name, step_back, sweep, delete_remote_wal_before,
}
use pghoard.Backups.WalSweep.Safety.{previous_fields, from_walfile_name_timeline}

abbrev pub IsFinished : {S : Type 0} → Sweep S → Type 0
IsFinished (finished ls s) = Unit
IsFinished (raised ls e) = ⊥
IsFinished (out_of_fuel ls) = ⊥

IsFinished-tried : {S : Type 0} (l : Lsn) (r : Sweep S) → IsFinished r → IsFinished (tried l r)
IsFinished-tried l (finished ls s) h = tt
IsFinished-tried l (raised ls e) h = elim h [ ]
IsFinished-tried l (out_of_fuel ls) h = elim h [ ]

abbrev HasTimeline : Lsn → Type 0
HasTimeline l = (t : ℕ) × (l.timeline_id ≡ some t)

abbrev segment : Lsn → ℕ
segment l = l.lsn / 2 ^ 24

-- The rounds that the loop may need: two for each segment.
abbrev rounds : Lsn → Bool → ℕ
rounds l true = 2 * segment l + 1
rounds l false = 2 * segment l + 2

walfile_name_total : (l : Lsn) → HasTimeline l → (name : Text) × (walfile_name l ≡ ok name)
unfolding walfile_name
walfile_name_total l (t, e) =
    let per_log = segments_per_xlogid l.server_version in
    (hex08 t ++ (hex08 (seg l / per_log) ++ hex08 (seg l % per_log)), rw e refl)

module _ {S : Type 0} (delete_key : S → Text → Deletion × S) (prefix : Text)
    (answers : (s : S) (key : Text) → (delete_key s key).0 ≢ failed) where
  abbrev Ends : ℕ → (S → Lsn → Bool → Sweep S) → Type 0
  Ends fuel next =
      (s : S) (l : Lsn) (v : Bool) → HasTimeline l → rounds l v ≤ fuel → IsFinished (next s l v)

  -- Fuel for the loop behind an attempt.
  abbrev Room : ℕ → Lsn → Bool → Type 0
  Room fuel l true = 2 * segment l + 2 ≤ fuel
  Room fuel l false = 2 * segment l + 1 ≤ fuel

  Room-next : (fuel : ℕ) (l : Lsn) (v : Bool) → Room fuel l v → 2 * segment l + 1 ≤ fuel
  Room-next fuel l true h = omega arith
  Room-next fuel l false h = h

  older-Ends :
      (fuel : ℕ) (next : S → Lsn → Bool → Sweep S) (s : S) (l : Lsn) (u : ℕ)
      → Ends fuel next
      → 2 * segment l + 2 ≤ fuel
      → IsFinished (next s (at_timeline l u) false)
  unfolding at_timeline
  older-Ends fuel next s l u ends room =
      ends s (record l { timeline_id = some u }) false (u, refl) room

  after_deletion-Ends :
      (fuel : ℕ) (next : S → Lsn → Bool → Sweep S) (l : Lsn) (v : Bool) (u : ℕ) (d : Deletion × S)
      → d.0 ≢ failed
      → Ends fuel next
      → HasTimeline l
      → Room fuel l v
      → IsFinished (after_deletion delete_key prefix next l v u d)
  unfolding after_deletion
  after_deletion-Ends fuel next l v u (deleted, s) fine ends timeline room =
      IsFinished-tried l _ (ends s l true timeline (Room-next fuel l v room))
  after_deletion-Ends fuel next l true u (not_found, s) fine ends timeline room =
      elim (Bool-cases (leb u 1)) [
        | inl last ↦ rw last tt
        | inr more ↦ rw more (IsFinished-tried l _ (older-Ends fuel next s l (u - 1) ends room))
      ]
  after_deletion-Ends fuel next l false u (not_found, s) fine ends timeline room = tt
  after_deletion-Ends fuel next l v u (failed, s) fine ends timeline room = absurd (fine refl)

  at_key-Ends :
      (fuel : ℕ) (next : S → Lsn → Bool → Sweep S) (s : S) (l : Lsn) (v : Bool) (o : Option ℕ)
      (name : Text)
      → Ends fuel next
      → HasTimeline l
      → o ≡ l.timeline_id
      → Room fuel l v
      → IsFinished (at_key delete_key prefix next s l v o name)
  unfolding at_key
  at_key-Ends fuel next s l v none name ends timeline e room =
      let none_left : none ≡ some timeline.0 = e ∙ timeline.1 in cc
  at_key-Ends fuel next s l v (some u) name ends timeline e room =
      let key = wal_path prefix name in
      after_deletion-Ends fuel next l v u (delete_key s key) (answers s key) ends timeline room

  attempt-Ends :
      (fuel : ℕ) (next : S → Lsn → Bool → Sweep S) (s : S) (l : Lsn) (v : Bool)
      → Ends fuel next
      → HasTimeline l
      → Room fuel l v
      → IsFinished (attempt delete_key prefix next s l v)
  unfolding attempt at_name
  attempt-Ends fuel next s l v ends timeline room =
      let (name, named) = walfile_name_total l timeline in
      subst (λ r. IsFinished (at_name delete_key prefix next s l v r)) (sym named)
        (at_key-Ends fuel next s l v l.timeline_id name ends timeline refl room)

  step_back-Ends :
      (fuel : ℕ) (next : S → Lsn → Bool → Sweep S) (s : S) (l : Lsn) (o : Option Lsn)
      → Ends fuel next
      → HasTimeline l
      → 2 * segment l ≤ fuel
      → previous_walfile_start_lsn l ≡ o
      → IsFinished (step_back delete_key prefix next s o)
  unfolding step_back
  step_back-Ends fuel next s l none ends timeline room e = tt
  step_back-Ends fuel next s l (some p) ends timeline room e =
      let (step, same) = previous_fields l p e in
      attempt-Ends fuel next s p true ends (timeline.0, same ∙ timeline.1) (omega arith)

  sweep-Ends : (fuel : ℕ) → Ends fuel (sweep delete_key prefix fuel)
  unfolding sweep
  sweep-Ends zero s l true timeline room = absurd (omega arith)
  sweep-Ends zero s l false timeline room = absurd (omega arith)
  sweep-Ends (suc fuel) s l true timeline room =
      step_back-Ends fuel (sweep delete_key prefix fuel) s l (previous_walfile_start_lsn l)
        (sweep-Ends fuel) timeline (omega arith) refl
  sweep-Ends (suc fuel) s l false timeline room =
      attempt-Ends fuel (sweep delete_key prefix fuel) s l false (sweep-Ends fuel) timeline
        (omega arith)

  -- If the store answers every deletion by success or by "not found", the loop ends, without an
  -- exception, from any readable name of a segment.
  pub delete_remote_wal_before_ends :
      (wal_segment : Text) (pg_version : Option ℕ) (l : Lsn) (s : S)
      → from_walfile_name wal_segment pg_version ≡ ok l
      → IsFinished (delete_remote_wal_before delete_key prefix wal_segment pg_version s)
  unfolding delete_remote_wal_before
  delete_remote_wal_before_ends wal_segment v l s e = rw e (
      sweep-Ends (2 * segment l + 1) s l true (from_walfile_name_timeline wal_segment v l e)
        (omega arith))

attempt_stuck :
    {S : Type 0} (delete_key : S → Text → Deletion × S) (prefix : Text)
    (next : S → Lsn → Bool → Sweep S) (s : S) (l : Lsn) (t : ℕ) (name : Text)
    → l.timeline_id ≡ some t
    → walfile_name l ≡ ok name
    → delete_key s (wal_path prefix name) ≡ (failed, s)
    → (ls : List Lsn) → next s l false ≡ out_of_fuel ls
    → attempt delete_key prefix next s l false ≡ out_of_fuel (l ∷ ls)
unfolding attempt at_name at_key after_deletion
attempt_stuck delete_key prefix next s l t name e named fails ls h =
    ap (λ r. at_name delete_key prefix next s l false r) named
    ∙ ap (λ o. at_key delete_key prefix next s l false o name) e
    ∙ ap (λ d. after_deletion delete_key prefix next l false t d) fails
    ∙ ap (tried l) h

abbrev pub repeated : ℕ → Lsn → List Lsn
repeated zero l = []
repeated (suc n) l = l ∷ repeated n l

-- On an older timeline, a deletion that keeps failing in another way than "not found" is tried
-- again for ever: no number of rounds is enough.
pub sweep_stuck :
    {S : Type 0} (delete_key : S → Text → Deletion × S) (prefix : Text) (fuel : ℕ) (s : S) (l : Lsn)
    (t : ℕ) (name : Text)
    → l.timeline_id ≡ some t
    → walfile_name l ≡ ok name
    → delete_key s (wal_path prefix name) ≡ (failed, s)
    → sweep delete_key prefix fuel s l false ≡ out_of_fuel (repeated fuel l)
unfolding sweep
sweep_stuck delete_key prefix zero s l t name e named fails = refl
sweep_stuck delete_key prefix (suc fuel) s l t name e named fails =
    attempt_stuck delete_key prefix (sweep delete_key prefix fuel) s l t name e named fails
      (repeated fuel l) (sweep_stuck delete_key prefix fuel s l t name e named fails)
