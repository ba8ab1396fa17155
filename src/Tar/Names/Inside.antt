-- ===== src/Tar/Names/Inside.antt =====
-- Where `_build_target_name` of pghoard/gnutaremu.py puts a file.
use pghoard.Base.{
  All, Bool, Bool-cases, List, Option, Text, [], ap, arith, codes, false, if◌then◌else◌, inl, inr,
  none, refl, some, sym, text_eq, true, ℕ, ◌==◌, ◌||◌, ◌∙◌, ◌∷◌, ◌≡◌,
}
use mathlib.Core.Path.{subst}
use pghoard.Tar.Names.{
  split, starts_with, contains, ends_with, lstrip, TarArguments, put_into, checked, relative,
  target, build_target_name, in_directory, transform_name, should_exclude,
}

-- No part of the path is the parent directory.
abbrev IsntParent : Text → Type 0
IsntParent part = text_eq part (codes "..") ≡ false

abbrev pub NoParent : Text → Type 0
NoParent s = All IsntParent (split s)

-- The first part of a path, and the others.
unfoldable first : Text → Text
first [] = []
first (c ∷ s) = let rest = first s in if c == b'/' then [] else c ∷ rest

unfoldable others : Text → List Text
others [] = []
others (c ∷ s) = let rest = others s in if c == b'/' then split s else rest

split_lem : (s : Text) → split s ≡ first s ∷ others s
unfolding split first others
split_lem [] = refl
split_lem (c ∷ s) = elim (Bool-cases (c == b'/')) [
  | inl e ↦ ground (arith, e)
  | inr e ↦ rw (split_lem s) (ground (arith, e))
]

first_parent :
    (s : Text)
    → text_eq (first s) (codes "..") ≡ true
    → (starts_with (codes "../") s || text_eq s (codes "..")) ≡ true
unfolding first text_eq starts_with
first_parent [] h = cc
first_parent (a ∷ []) h = ground arith
first_parent (a ∷ b ∷ []) h = ground arith
first_parent (a ∷ b ∷ c ∷ s) h = ground arith

first-IsntParent :
    (c : ℕ) (s : Text)
    → contains (codes "../") (c ∷ s) ≡ false
    → ends_with (codes "..") (c ∷ s) ≡ false
    → IsntParent (first (c ∷ s))
unfolding contains ends_with
first-IsntParent c s h k = ground (arith, first_parent (c ∷ s))

others_slash : (c : ℕ) (s : Text) → (c == b'/') ≡ true → others (c ∷ s) ≡ split s
unfolding others
others_slash c s e = ground (arith, e)

others_same : (c : ℕ) (s : Text) → (c == b'/') ≡ false → others (c ∷ s) ≡ others s
unfolding others
others_same c s e = ground (arith, e)

others_inside :
    (c : ℕ) (s : Text)
    → IsntParent (first s) × All IsntParent (others s)
    → All IsntParent (others (c ∷ s))
others_inside c s h = elim (Bool-cases (c == b'/')) [
  | inl e ↦ subst (All IsntParent) (sym (others_slash c s e ∙ split_lem s)) h
  | inr e ↦ subst (All IsntParent) (sym (others_same c s e)) h.1
]

later_none :
    (c : ℕ) (s : Text)
    → contains (codes "../") (c ∷ s) ≡ false
    → ends_with (codes "..") (c ∷ s) ≡ false
    → (contains (codes "../") s ≡ false) × (ends_with (codes "..") s ≡ false)
unfolding contains ends_with
later_none c s h k = ground arith

parts_inside :
    (s : Text)
    → contains (codes "../") s ≡ false
    → ends_with (codes "..") s ≡ false
    → IsntParent (first s) × All IsntParent (others s)
unfolding others first text_eq
parts_inside [] h k = (refl, tt)
parts_inside (c ∷ s) h k =
    let later = later_none c s h k in
    (first-IsntParent c s h k, others_inside c s (parts_inside s later.0 later.1))

no_parent :
    (s : Text) → contains (codes "../") s ≡ false → ends_with (codes "..") s ≡ false → NoParent s
no_parent s h k = subst (All IsntParent) (sym (split_lem s)) (parts_inside s h k)

lstrip_lem : (s : Text) → starts_with (codes "/") (lstrip s) ≡ false
unfolding lstrip starts_with
lstrip_lem [] = refl
lstrip_lem (c ∷ s) = ground (arith, lstrip_lem s)

checked-some :
    (name : Text) {r : Text}
    → checked name ≡ some r
    → (r ≡ name) × (contains (codes "../") name ≡ false) × (ends_with (codes "..") name ≡ false)
unfolding checked
checked-some name h = ground arith

-- What the specification asks of a target: a name that is relative and has no part "..", put into
-- the target directory.
abbrev pub IsInside : Option Text → Text → Type 0
IsInside directory target =
    (name : Text) × (target ≡ put_into directory name)
    × (starts_with (codes "/") name ≡ false)
    × NoParent name

relative-IsInside :
    (directory : Option Text) (name : Text) {r : Text}
    → checked (lstrip name) ≡ some r
    → IsInside directory (put_into directory r)
relative-IsInside directory name h =
    let e = checked-some (lstrip name) h in
    (lstrip name, ap (put_into directory) e.0, lstrip_lem name, no_parent (lstrip name) e.1 e.2)

relative_lem : (b : Bool) (name : Text) → b ≡ false → relative b name ≡ checked (lstrip name)
unfolding relative
relative_lem true name h = cc
relative_lem false name h = refl

in_directory-some :
    (directory o : Option Text) {t : Text}
    → in_directory directory o ≡ some t
    → (r : Text) × (o ≡ some r) × (t ≡ put_into directory r)
unfolding in_directory
in_directory-some directory none h = cc
in_directory-some directory (some r) h = (r, refl, cc)

not_excluded :
    (b : Bool) (o : Option Text) {t : Text} → (if b then none else o) ≡ some t → o ≡ some t
not_excluded true o h = cc
not_excluded false o h = h

target-IsInside :
    (args : TarArguments) (name : Text) {t : Text}
    → args.absolute_names ≡ false
    → target args name ≡ some t
    → IsInside args.directory t
unfolding target
target-IsInside args [] ha h = cc
target-IsInside args (c ∷ name) ha h =
    let e = in_directory-some args.directory (relative args.absolute_names (c ∷ name)) h in
    let k = sym (relative_lem args.absolute_names (c ∷ name) ha) ∙ e.1 in
    subst (IsInside args.directory) (sym e.2) (relative-IsInside args.directory (c ∷ name) k)

module _ (fnmatch : Text → Text → Bool) (sub : Text → Text → Text → Text) where
  -- Without `--absolute-names`, the name under which a member is extracted is a relative one with
  -- no part "..", put into the target directory, whatever the names in the archive, the patterns of
  -- `--exclude` and the substitutions are.
  pub build_target_name-IsInside :
      (args : TarArguments) (source_name : Text) {t : Text}
      → args.absolute_names ≡ false
      → build_target_name fnmatch sub args source_name ≡ some t
      → IsInside args.directory t
  unfolding build_target_name
  build_target_name-IsInside args source_name ha h =
      target-IsInside args (transform_name fnmatch sub args.substitutions source_name) ha
        (not_excluded (should_exclude fnmatch sub args.exclude source_name) _ h)
