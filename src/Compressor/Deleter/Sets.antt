-- ===== src/Compressor/Deleter/Sets.antt =====
-- Sets of paths as ascending lists, for the deleter of pghoard/compressor.py.
use pghoard.Base.{
  Bool-cases, List, Option, Text, [], false, inl, inr, none, refl, some, sym, text_eq,
  text_eq-false, text_lt, text_lt_total, text_lt_trans, true, ◌∷◌, ◌≡◌,
}
use mathlib.Core.Path.{subst}
use pghoard.Compressor.Deleter.{insert}

-- A set of paths: a strictly ascending list.
abbrev pub Ordered : List Text → Type 0
Ordered [] = Unit
Ordered (p ∷ []) = Unit
Ordered (p ∷ q ∷ ps) = (text_lt p q ≡ true) × Ordered (q ∷ ps)

abbrev pub latest : List Text → Option Text
latest [] = none
latest (p ∷ []) = some p
latest (p ∷ q ∷ ps) = latest (q ∷ ps)

abbrev pub Before : Option Text → Text → Type 0
Before none p = ⊥
Before (some l) p = text_lt p l ≡ true

pub Before-latest :
    (p q : Text) (ps : List Text) → Ordered (p ∷ q ∷ ps) → Before (latest (q ∷ ps)) p
Before-latest p q [] h = h.0
Before-latest p q (r ∷ ps) h = Before-latest p r ps (text_lt_trans p q r h.0 h.1.0, h.1.1)

-- A path that is before every path of a set may be put in front of it.
IsFirst : Text → List Text → Type 0
IsFirst p [] = Unit
IsFirst p (q ∷ ps) = text_lt p q ≡ true

Ordered-cons : (p : Text) (ps : List Text) → IsFirst p ps → Ordered ps → Ordered (p ∷ ps)
unfolding IsFirst insert
Ordered-cons p [] f h = tt
Ordered-cons p (q ∷ ps) f h = (f, h)

Ordered-tail : (p : Text) (ps : List Text) → Ordered (p ∷ ps) → IsFirst p ps × Ordered ps
unfolding IsFirst insert
Ordered-tail p [] h = (tt, tt)
Ordered-tail p (q ∷ ps) h = h

-- `insert path (p ∷ ps)` by the three cases.
insert_before :
    (path p : Text) (ps : List Text) → text_lt path p ≡ true → insert path (p ∷ ps) ≡ path ∷ p ∷ ps
unfolding insert
insert_before path p ps h = rw h refl

insert_same :
    (path p : Text) (ps : List Text)
    → text_lt path p ≡ false
    → text_eq path p ≡ true
    → insert path (p ∷ ps) ≡ p ∷ ps
unfolding insert
insert_same path p ps h k = rw (h, k) refl

insert_after :
    (path p : Text) (ps : List Text)
    → text_lt path p ≡ false
    → text_eq path p ≡ false
    → insert path (p ∷ ps) ≡ p ∷ insert path ps
unfolding insert
insert_after path p ps h k = rw (h, k) refl

insert-IsFirst :
    (p path : Text) (ps : List Text)
    → text_lt p path ≡ true
    → IsFirst p ps
    → IsFirst p (insert path ps)
unfolding IsFirst insert
insert-IsFirst p path [] h f = h
insert-IsFirst p path (q ∷ ps) h f = elim (Bool-cases (text_lt path q)) [
  | inl e ↦ subst (IsFirst p) (sym (insert_before path q ps e)) h
  | inr e ↦ elim (Bool-cases (text_eq path q)) [
    | inl k ↦ subst (IsFirst p) (sym (insert_same path q ps e k)) f
    | inr k ↦ subst (IsFirst p) (sym (insert_after path q ps e k)) f
  ]
]

pub insert-Ordered : (path : Text) (ps : List Text) → Ordered ps → Ordered (insert path ps)
unfolding insert
insert-Ordered path [] h = tt
insert-Ordered path (q ∷ ps) h = elim (Bool-cases (text_lt path q)) [
  | inl e ↦ subst Ordered (sym (insert_before path q ps e)) (e, h)
  | inr e ↦ elim (Bool-cases (text_eq path q)) [
    | inl k ↦ subst Ordered (sym (insert_same path q ps e k)) h
    | inr k ↦
        let t = Ordered-tail q ps h in
        let later = text_lt_total path q e (text_eq-false path q k) in
        subst Ordered (sym (insert_after path q ps e k)) (
          Ordered-cons q (insert path ps) (insert-IsFirst q path ps later t.0)
            (insert-Ordered path ps t.1))
  ]
]
