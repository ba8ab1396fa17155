-- ===== src/Cleanup/Required.antt =====
-- What `archive_cleanup` of pghoard/archive_cleanup.py may delete.
use pghoard.Base.{
  >>=-eq-ok, All, Bool, Bool-cases, List, Option, Text, [], arith, false, if◌then◌else◌, inl, inr,
  none, ok, ok-injective, refl, some, sym, text_lt, true, ℕ, ◌∷◌, ◌≡◌,
}
use mathlib.Core.Path.{subst}
use pghoard.Backups.WalSweep.{Deletion, deleted, not_found, failed}
use pghoard.Cleanup.{
  start_segments, smallest, min_text, first_required_wal, basename, Cleanup, after_delete, orphan,
  clean, archive_cleanup,
}

text_lt_asym : (a b : Text) → text_lt a b ≡ true → text_lt b a ≡ false
unfolding text_lt
text_lt_asym [] [] h = refl
text_lt_asym [] (y ∷ b) h = refl
text_lt_asym (x ∷ a) [] h = cc
text_lt_asym (x ∷ a) (y ∷ b) h = ground (arith, text_lt_asym a b)

-- From "at least" twice, and from "before" and "at least".
at_least_trans : (a b c : Text) → text_lt a b ≡ false → text_lt b c ≡ false → text_lt a c ≡ false
unfolding text_lt
at_least_trans [] [] [] h k = refl
at_least_trans [] [] (z ∷ c) h k = cc
at_least_trans [] (y ∷ b) c h k = cc
at_least_trans (x ∷ a) b [] h k = refl
at_least_trans (x ∷ a) [] (z ∷ c) h k = cc
at_least_trans (x ∷ a) (y ∷ b) (z ∷ c) h k = ground (arith, at_least_trans a b c)

text_lt_at_least : (a b c : Text) → text_lt a b ≡ true → text_lt c b ≡ false → text_lt a c ≡ true
unfolding text_lt
text_lt_at_least [] [] c h k = cc
text_lt_at_least [] (y ∷ b) [] h k = cc
text_lt_at_least [] (y ∷ b) (z ∷ c) h k = refl
text_lt_at_least (x ∷ a) [] c h k = cc
text_lt_at_least (x ∷ a) (y ∷ b) [] h k = cc
text_lt_at_least (x ∷ a) (y ∷ b) (z ∷ c) h k = ground (arith, text_lt_at_least a b c)

AtLeast : Text → List Text → Type 0
AtLeast w ts = All (λ t. text_lt t w ≡ false) ts

irreflexive : (a : Text) → text_lt a a ≡ false
unfolding text_lt
irreflexive [] = refl
irreflexive (x ∷ a) = ground (arith, irreflexive a)

smallest-AtLeast : (best : Text) (ts : List Text) → AtLeast (smallest best ts) (best ∷ ts)
unfolding smallest AtLeast
smallest-AtLeast best [] = (irreflexive best, tt)
smallest-AtLeast best (t ∷ ts) = elim (Bool-cases (text_lt t best)) [
  | inl e ↦
      let h = smallest-AtLeast t ts in
      subst (λ b. AtLeast (smallest (if b then t else best) ts) (best ∷ t ∷ ts)) (sym e)
        (at_least_trans best t (smallest t ts) (text_lt_asym t best e) h.0, h)
  | inr e ↦
      let h = smallest-AtLeast best ts in
      subst (λ b. AtLeast (smallest (if b then t else best) ts) (best ∷ t ∷ ts)) (sym e)
        (h.0, (at_least_trans t best (smallest best ts) e h.0, h.1))
]

-- A segment is before the first one of every base backup.
abbrev pub Precedes : Text → List (Option Text) → Type 0
Precedes segment [] = Unit
Precedes segment (none ∷ bbs) = ⊥
Precedes segment (some t ∷ bbs) = (text_lt segment t ≡ true) × Precedes segment bbs

start_segments-Precedes :
    (bbs : List (Option Text)) (ts : List Text) (w segment : Text)
    → start_segments bbs ≡ ok ts
    → AtLeast w ts
    → text_lt segment w ≡ true
    → Precedes segment bbs
unfolding start_segments AtLeast
start_segments-Precedes [] ts w segment e h k = tt
start_segments-Precedes (none ∷ bbs) ts w segment e h k = cc
start_segments-Precedes (some t ∷ bbs) ts w segment e h k =
    let (us, p, q) = >>=-eq-ok (start_segments bbs) _ e in
    let h' = subst (AtLeast w) (sym (ok-injective q)) h in
    (text_lt_at_least segment w t k h'.0, start_segments-Precedes bbs us w segment p h'.1 k)

min_text-AtLeast : (ts : List Text) {w : Text} → min_text ts ≡ ok w → AtLeast w ts
unfolding min_text
min_text-AtLeast [] h = cc
min_text-AtLeast (t ∷ ts) h =
    subst (λ w. AtLeast w (t ∷ ts)) (ok-injective h) (smallest-AtLeast t ts)

first_required_wal-Precedes :
    (bbs : List (Option Text)) (w segment : Text)
    → first_required_wal bbs ≡ ok w
    → text_lt segment w ≡ true
    → Precedes segment bbs
unfolding first_required_wal
first_required_wal-Precedes bbs w segment e k =
    let (ts, p, q) = >>=-eq-ok (start_segments bbs) min_text e in
    start_segments-Precedes bbs ts w segment p (min_text-AtLeast ts q) k

module _ {S : Type 0} (delete_key : S → Text → Deletion × S) (P : Text → Type 0) where
  after_delete-All :
      (name : Text) (size : Option ℕ) (next : S → Cleanup S) (r : Deletion × S)
      → P name
      → ((s : S) → All P (next s).tried)
      → All P (after_delete name size next r).tried
  unfolding after_delete
  after_delete-All name size next (deleted, s) p h = (p, h s)
  after_delete-All name size next (not_found, s) p h = (p, h s)
  after_delete-All name size next (failed, s) p h = (p, tt)

  orphan-All :
      (dry_run : Bool) (first name : Text) (size : Option ℕ) (next : S → Cleanup S) (s : S)
      → P name
      → ((s : S) → All P (next s).tried)
      → All P (orphan delete_key dry_run first name size next s).tried
  unfolding orphan
  orphan-All true first name size next s p h = h s
  orphan-All false first name size next s p h =
      after_delete-All name size next (delete_key s name) p h

module _ {S : Type 0} (delete_key : S → Text → Deletion × S) where
  if-All :
      (P : Text → Type 0) (b : Bool) (x y : Cleanup S)
      → (b ≡ true → All P x.tried)
      → All P y.tried
      → All P (if b then x else y).tried
  if-All P true x y h k = h refl
  if-All P false x y h k = k

  clean-All :
      (P : Text → Type 0) (dry_run : Bool) (first : Text)
      → ((name : Text) → text_lt (basename name) first ≡ true → P name)
      → (objects : List (Text × Option ℕ)) (s : S)
      → All P (clean delete_key dry_run first objects s).tried
  unfolding clean
  clean-All P dry_run first h [] s = tt
  clean-All P dry_run first h ((name, size) ∷ objects) s =
      if-All P (text_lt (basename name) first) _ _
        (λ e.
          orphan-All delete_key P dry_run first name size (clean delete_key dry_run first objects) s
            (h name e) (clean-All P dry_run first h objects))
        (clean-All P dry_run first h objects s)

  -- Each key that a cleanup tries to delete has a base name before the first WAL segment of every
  -- base backup in the listing, whatever the store answers.
  pub archive_cleanup-Precedes :
      (dry_run : Bool) (basebackups : List (Option Text)) (objects : List (Text × Option ℕ)) (s : S)
      {r : Cleanup S}
      → archive_cleanup delete_key dry_run basebackups objects s ≡ ok r
      → All (λ key. Precedes (basename key) basebackups) r.tried
  unfolding archive_cleanup
  archive_cleanup-Precedes dry_run basebackups objects s e =
      let (w, p, q) = >>=-eq-ok (first_required_wal basebackups) _ e in
      subst (λ r. All (λ key. Precedes (basename key) basebackups) r.tried) (ok-injective q)
        (clean-All (λ key. Precedes (basename key) basebackups) dry_run w
          (λ name k. first_required_wal-Precedes basebackups w (basename name) p k) objects s)
