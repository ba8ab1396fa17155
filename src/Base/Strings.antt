-- ===== src/Base/Strings.antt =====
-- Text: the code points of a literal, the order of Python's `str`, and the tests on texts.
use Prim.Native.Char.{code}
use Prim.Native.String.{String}
use Prim.Native.Nat.{ℕ}
use mathlib.Core.Bool.{Bool, true, false, ◌&&◌, ◌||◌}
use mathlib.Core.List.{List, [], ◌∷◌}
use mathlib.Core.Path.{◌≡◌, refl, ◌∙◌}
use mathlib.Core.Logic.{inl, inr}
use mathlib.Core.List.{◌++◌, append_assoc}
use native.Mathlib.Omega.{arith}
use pghoard.Base.Tests.{ltb, ◌==◌, if◌then◌else◌, Bool-cases}

abbrev pub codes : String → List ℕ
codes String.[] = []
codes (String.◌∷◌ c s) = code c ∷ codes s

-- The equality of two texts.
unfoldable pub text_eq : List ℕ → List ℕ → Bool
text_eq [] [] = true
text_eq (a ∷ s) (b ∷ t) = (a == b) && text_eq s t
text_eq _ _ = false

-- The order of Python's strings, by code points from the left.
unfoldable pub text_lt : List ℕ → List ℕ → Bool
text_lt [] [] = false
text_lt [] (b ∷ t) = true
text_lt (a ∷ s) [] = false
text_lt (a ∷ s) (b ∷ t) = let rest = text_lt s t in if a == b then rest else ltb a b

abbrev pub Text : Type 0
Text = List ℕ

-- `os.path.join` of two parts: an absolute second part stands alone, and a slash is put between
-- them unless the first part is empty or ends in one.
unfoldable pub starts_with_slash : Text → Bool
starts_with_slash [] = false
starts_with_slash (c ∷ s) = c == b'/'

no_slash_wanted : Text → Bool
no_slash_wanted [] = true
no_slash_wanted (c ∷ []) = c == b'/'
no_slash_wanted (c ∷ d ∷ s) = no_slash_wanted (d ∷ s)

unfoldable pub path_join : Text → Text → Text
unfolding starts_with_slash no_slash_wanted
path_join a b =
    if starts_with_slash b then b else if no_slash_wanted a then a ++ b else a ++ b'/' ∷ b

pub text_eq_refl : (s : Text) → text_eq s s ≡ true
unfolding text_eq
text_eq_refl [] = refl
text_eq_refl (c ∷ s) = ground (arith, text_eq_refl s)

pub eq_of_text_eq : (s t : Text) → text_eq s t ≡ true → s ≡ t
unfolding text_eq
eq_of_text_eq [] [] h = refl
eq_of_text_eq [] (b ∷ t) h = cc
eq_of_text_eq (a ∷ s) [] h = cc
eq_of_text_eq (a ∷ s) (b ∷ t) h = ground (arith, eq_of_text_eq s t)

-- Membership of a text in a list, Python's `in`.
unfoldable pub elem : Text → List Text → Bool
elem x [] = false
elem x (y ∷ ys) = text_eq x y || elem x ys

pub text_lt_trans : (a b c : Text) → text_lt a b ≡ true → text_lt b c ≡ true → text_lt a c ≡ true
unfolding text_lt
text_lt_trans [] [] [] h k = cc
text_lt_trans [] (y ∷ b) [] h k = cc
text_lt_trans [] b (z ∷ c) h k = refl
text_lt_trans (x ∷ a) [] c h k = cc
text_lt_trans (x ∷ a) (y ∷ b) [] h k = cc
text_lt_trans (x ∷ a) (y ∷ b) (z ∷ c) h k = ground (arith, text_lt_trans a b c)

pub text_lt_total : (a b : Text) → text_lt a b ≡ false → text_eq b a ≡ false → text_lt b a ≡ true
unfolding text_lt text_eq
text_lt_total [] [] h k = cc
text_lt_total [] (y ∷ b) h k = cc
text_lt_total (x ∷ a) [] h k = refl
text_lt_total (x ∷ a) (y ∷ b) h k = ground (arith, text_lt_total a b)

pub text_eq-false : (a b : Text) → text_eq a b ≡ false → text_eq b a ≡ false
unfolding text_eq
text_eq-false [] [] h = cc
text_eq-false [] (y ∷ b) h = refl
text_eq-false (x ∷ a) [] h = refl
text_eq-false (x ∷ a) (y ∷ b) h = ground (arith, text_eq-false a b)

text_eq-append : (a b c : Text) → text_eq (a ++ b) (a ++ c) ≡ text_eq b c
unfolding text_eq
text_eq-append [] b c = refl
text_eq-append (x ∷ a) b c = ground (arith, text_eq-append a b c)

-- Paths in one directory, the first one with a suffix, compare as their names do.
pub text_eq-path_join :
    (d b t c : Text)
    → starts_with_slash b ≡ false
    → starts_with_slash c ≡ false
    → text_eq (path_join d b ++ t) (path_join d c) ≡ text_eq (b ++ t) c
unfolding path_join
text_eq-path_join d b t c hb hc = rw hb (
    rw hc (elim (Bool-cases (no_slash_wanted d)) [
      | inl e ↦ rw e (rw (append_assoc d b t) (text_eq-append d (b ++ t) c))
      | inr e ↦ rw e (
          rw (append_assoc d (b'/' ∷ b) t)
            (text_eq-append d (b'/' ∷ b ++ t) (b'/' ∷ c) ∙ unfold text_eq in refl))
    ]))

pub text_not_before :
    (x y z : Text) → text_lt x y ≡ false → text_lt y z ≡ false → text_lt x z ≡ false
text_not_before x y z h k = elim (Bool-cases (text_lt x z)) [
  | inr f ↦ f
  | inl p ↦ elim (Bool-cases (text_eq y x)) [
    | inl e ↦ cc (eq_of_text_eq y x e)
    | inr e ↦ cc (text_lt_trans y x z (text_lt_total x y h e) p)
  ]
]

pub text_lt_asym : (x y : Text) → text_lt x y ≡ true → text_lt y x ≡ false
unfolding text_lt
text_lt_asym [] [] h = cc
text_lt_asym [] (b ∷ y) h = refl
text_lt_asym (a ∷ x) [] h = cc
text_lt_asym (a ∷ x) (b ∷ y) h = ground (arith, text_lt_asym x y)

pub text_lt_irrefl : (x : Text) → text_lt x x ≡ false
unfolding text_lt
text_lt_irrefl [] = refl
text_lt_irrefl (a ∷ x) = ground (arith, text_lt_irrefl x)
