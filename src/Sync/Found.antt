-- ===== src/Sync/Found.antt =====
-- What `check_wal_archive_integrity` of pghoard/archive_sync.py has found.
use pghoard.Base.{
  Bool, Bool-cases, Option, Option-cases, Result, Text, [], arith, false, inl, inr, none, ok,
  ok-injective, raise, refl, some, suc, true, zero, ℕ, ◌%◌, ◌*◌, ◌+◌, ◌/◌, ◌<◌, ◌^◌, ◌∷◌, ◌≡◌, ◌≤◌,
}
use native.Mathlib.Decide.{ℕ_discrete}
use pghoard.Wal.Hex.{int16}
use pghoard.Wal.Lsn.{
  Lsn, equals, from_walfile_name, walfile_name, walfile_start_lsn, previous_walfile_start_lsn,
  at_timeline,
}
use pghoard.Sync.{
  Walk, complete, incomplete, raised, out_of_fuel, with_found, after_head, ask, ask_before, walk,
  walk_from, integrity_walk, outcome_of, check_wal_archive_integrity,
}

-- The archive has the segment of a number, on some timeline.
abbrev pub InArchive : (Text → Bool) → ℕ → Type 0
InArchive head k =
    (l : Lsn) × (name : Text) × (l.lsn ≡ k * 2 ^ 24)
    × (walfile_name l ≡ ok name)
    × (head name ≡ true)

-- What the end of the loop tells of a segment.
Tells : (Text → Bool) → ℕ → Walk → Type 0
Tells head k (complete ls) = InArchive head k
Tells head k _ = Unit

Tells-with_found :
    (head : Text → Bool) (k : ℕ) (l : Lsn) (w : Walk)
    → Tells head k w
    → Tells head k (with_found l w)
unfolding Tells
Tells-with_found head k l (complete ls) h = h
Tells-with_found head k l (incomplete m) h = tt
Tells-with_found head k l (raised e) h = tt
Tells-with_found head k l out_of_fuel h = tt

Tells-found : (head : Text → Bool) (k : ℕ) (w : Walk) → InArchive head k → Tells head k w
unfolding Tells
Tells-found head k (complete ls) h = h
Tells-found head k (incomplete m) h = tt
Tells-found head k (raised e) h = tt
Tells-found head k out_of_fuel h = tt

previous_exact :
    (l p : Lsn)
    → previous_walfile_start_lsn l ≡ some p
    → l.lsn % 2 ^ 24 ≡ 0
    → l.lsn < 2 ^ 56
    → p.lsn + 2 ^ 24 ≡ l.lsn
unfolding previous_walfile_start_lsn walfile_start_lsn
previous_exact l p e h b = ground arith

equal_lsn : (l f : Lsn) → equals l f ≡ true → l.lsn ≡ f.lsn
unfolding equals
equal_lsn l f h = ground arith

-- The segment is still to be found.
abbrev Ahead : ℕ → Lsn → Bool → Type 0
Ahead k l true = (k * 2 ^ 24 < l.lsn) × (l.lsn % 2 ^ 24 ≡ 0) × (l.lsn < 2 ^ 56)
Ahead k l false = (k * 2 ^ 24 ≤ l.lsn) × (l.lsn % 2 ^ 24 ≡ 0) × (l.lsn < 2 ^ 56)

module _ (head : Text → Bool) (first_required : Lsn) (k : ℕ)
    (needed : first_required.lsn ≤ k * 2 ^ 24) where
  abbrev TellsNext : (Lsn → Bool → Walk) → Type 0
  TellsNext next = (l : Lsn) (v : Bool) → Ahead k l v → Tells head k (next l v)

  after_head-Tells :
      (next : Lsn → Bool → Walk) (l : Lsn) (v : Bool) (t : Option ℕ) (b : Bool) (name : Text)
      → TellsNext next
      → Ahead k l false
      → walfile_name l ≡ ok name
      → head name ≡ b
      → Tells head k (after_head head first_required next l v t b)
  unfolding after_head
  after_head-Tells next l v t true name tells (le, aligned, bound) e h =
      elim (Bool-cases (equals l first_required)) [
        | inl q ↦
            let same = equal_lsn l first_required q in
            rw q (Tells-found head k (complete (l ∷ [])) (l, name, omega arith, e, h))
        | inr q ↦ rw q (elim (ℕ_discrete l.lsn (k * 2 ^ 24)) [
          | yes here ↦ Tells-found head k (with_found l (next l true)) (l, name, here, e, h)
          | no n ↦
              Tells-with_found head k l (next l true) (tells l true (omega arith, aligned, bound))
        ])
      ]
  after_head-Tells next l true (some (suc t)) false name tells ahead e h =
      tells (at_timeline l t) false (unfold at_timeline in ahead)
  after_head-Tells next l true (some zero) false name tells ahead e h = unfold Tells in tt
  after_head-Tells next l true none false name tells ahead e h = unfold Tells in tt
  after_head-Tells next l false t false name tells ahead e h = unfold Tells in tt

  ask-Tells :
      (next : Lsn → Bool → Walk) (l : Lsn) (v : Bool) (name : Result Text)
      → TellsNext next
      → Ahead k l false
      → walfile_name l ≡ name
      → Tells head k (ask head first_required next l v name)
  unfolding ask
  ask-Tells next l v (raise e) tells ahead same = unfold Tells in tt
  ask-Tells next l v (ok name) tells ahead same =
      after_head-Tells next l v l.timeline_id (head name) name tells ahead same refl

  walk-Tells : (fuel : ℕ) → TellsNext (walk head first_required fuel)
  unfolding walk
  walk-Tells zero l v ahead = unfold Tells in tt
  walk-Tells (suc fuel) l false ahead =
      ask-Tells (walk head first_required fuel) l false (walfile_name l) (walk-Tells fuel) ahead
        refl
  walk-Tells (suc fuel) l true (lt, aligned, bound) =
      elim (Option-cases (previous_walfile_start_lsn l)) [
        | inl e ↦ rw e (unfold ask_before Tells in tt)
        | inr (p, e) ↦
            let step = previous_exact l p e aligned bound in
            rw e (
              unfold ask_before in
              ask-Tells (walk head first_required fuel) p true (walfile_name p) (walk-Tells fuel)
                (omega arith, omega arith, omega arith) refl)
      ]

aligned_name :
    (s : Text) (v : Option ℕ) (l : Lsn) → from_walfile_name s v ≡ ok l → l.lsn % 2 ^ 24 ≡ 0
unfolding from_walfile_name
aligned_name s v l = elim (Option-cases (int16 s)) [
  | inl e ↦ rw e (λ h. cc)
  | inr (n, e) ↦ rw e (λ h. let same = ok-injective h in rw⁻¹ same (omega arith))
]

outcome_of_complete :
    (head : Text → Bool) (k : ℕ) (new_backup : Bool) (w : Walk)
    → outcome_of new_backup w ≡ ok (0, false)
    → Tells head k w
    → InArchive head k
unfolding outcome_of Tells
outcome_of_complete head k new_backup (complete ls) e h = h
outcome_of_complete head k true (incomplete l) e h = cc
outcome_of_complete head k false (incomplete l) e h = cc
outcome_of_complete head k new_backup (raised x) e h = cc
outcome_of_complete head k new_backup out_of_fuel e h = cc

-- When the check of the archive ends without an error and without a request for a new backup, the
-- archive has, on some timeline, each segment from the first required one up to the one before the
-- current one, for LSNs of at most 56 bits.
pub check_wal_archive_integrity-InArchive :
    (head : Text → Bool) (new_backup : Bool) (c : ℕ) (current first_required : Text)
    (pg_version : Option ℕ) (l f : Lsn) (k : ℕ)
    → from_walfile_name (c ∷ current) pg_version ≡ ok l
    → from_walfile_name first_required pg_version ≡ ok f
    → l.lsn < 2 ^ 56
    → check_wal_archive_integrity head new_backup (c ∷ current) (some first_required) pg_version
      ≡ ok (0, false)
    → f.lsn ≤ k * 2 ^ 24
    → k * 2 ^ 24 < l.lsn
    → InArchive head k
unfolding check_wal_archive_integrity integrity_walk
check_wal_archive_integrity-InArchive head new_backup c current first v l f k el ef b done from to =
    outcome_of_complete head k new_backup
      (walk_from head (from_walfile_name (c ∷ current) v) (from_walfile_name first v)) done
      (rw el (
        rw ef (
          unfold walk_from in
          walk-Tells head f k from (2 * (l.lsn / 2 ^ 24) + 1) l true
            (to, aligned_name (c ∷ current) v l el, b))))
