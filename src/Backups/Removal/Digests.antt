-- ===== src/Backups/Removal/Digests.antt =====
-- The sets of digests in `_get_delta_basebackup_files` of pghoard/pghoard.py.
use pghoard.Base.{
  Bool, Bool-cases, List, Text, [], arith, elem, eq_of_text_eq, false, inl, inr, not, refl, sym,
  text_eq, true, ◌&&◌, ◌||◌, ◌∷◌, ◌≡◌, ◌≢◌,
}
use mathlib.Core.Path.{subst}
use pghoard.Backups.Removal.{add, add_digests, difference}

elem-add : (d x : Text) (xs : List Text) → elem d (add x xs) ≡ (text_eq d x || elem d xs)
unfolding add elem
elem-add d x xs = ground (arith, eq_of_text_eq d x)

pub elem-difference :
    (d : Text) (xs ys : List Text) → elem d (difference xs ys) ≡ (elem d xs && not (elem d ys))
unfolding difference elem
elem-difference d [] ys = refl
elem-difference d (x ∷ xs) ys = elim (Bool-cases (text_eq d x)) [
  | inl e ↦ ground (arith, elem-difference d xs ys, e, eq_of_text_eq d x e)
  | inr e ↦ ground (arith, elem-difference d xs ys, e)
]

-- Digests stay in a set to which others are added.
pub add_digests_old :
    (d : Text) (ds xs : List Text) → elem d xs ≡ true → elem d (add_digests ds xs) ≡ true
unfolding add_digests
add_digests_old d [] xs h = h
add_digests_old d ([] ∷ ds) xs h = add_digests_old d ds xs h
add_digests_old d ((c ∷ e) ∷ ds) xs h =
    ground (arith, elem-add d (c ∷ e) (add_digests ds xs), add_digests_old d ds xs h)

text_eq-nil : (d : Text) → d ≢ [] → text_eq d [] ≡ false
unfolding text_eq
text_eq-nil [] h = absurd (h refl)
text_eq-nil (c ∷ d) h = refl

pub add_digests_new :
    (d : Text) (ds xs : List Text) → d ≢ [] → elem d ds ≡ true → elem d (add_digests ds xs) ≡ true
unfolding add_digests elem
add_digests_new d [] xs nonempty h = cc
add_digests_new d ([] ∷ ds) xs nonempty h =
    add_digests_new d ds xs nonempty (ground (arith, text_eq-nil d))
add_digests_new d ((c ∷ e) ∷ ds) xs nonempty h =
    ground (arith, elem-add d (c ∷ e) (add_digests ds xs), add_digests_new d ds xs nonempty)

abbrev is_nonempty : Text → Bool
is_nonempty [] = false
is_nonempty (c ∷ cs) = true

-- What is new in a set to which the digests that are not empty are added.
pub add_digests_from :
    (d : Text) (ds xs : List Text)
    → elem d (add_digests ds xs) ≡ true
    → elem d xs ≡ false
    → (elem d ds ≡ true) × (is_nonempty d ≡ true)
unfolding add_digests elem
add_digests_from d [] xs h k = cc
add_digests_from d ([] ∷ ds) xs h k =
    let (there, nonempty) = add_digests_from d ds xs h k in (ground (arith, there), nonempty)
add_digests_from d ((c ∷ e) ∷ ds) xs h k = elim (Bool-cases (text_eq d (c ∷ e))) [
  | inl same ↦ (
    ground (arith, same),
    subst (λ x. is_nonempty x ≡ true) (sym (eq_of_text_eq d (c ∷ e) same)) (refl),
  )
  | inr other ↦
      let there : elem d (add_digests ds xs) ≡ true =
        ground (arith, elem-add d (c ∷ e) (add_digests ds xs), h, other) in
      let (found, nonempty) = add_digests_from d ds xs there k in (ground (arith, found), nonempty)
]
