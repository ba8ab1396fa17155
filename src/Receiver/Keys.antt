-- ===== src/Receiver/Keys.antt =====
-- Lists of positions as sets and as the keys of a dictionary, for pghoard/walreceiver.py.
use pghoard.Base.{
  ==_iff, All, Bool, Bool-cases, List, [], ap, arith, false, inl, inr, ltb, ltb→lt, not, ok, refl,
  sym, true, ℕ, ◌&&◌, ◌<◌, ◌==◌, ◌||◌, ◌∙◌, ◌∷◌, ◌≡◌, ◌≢◌,
}
use mathlib.Core.Path.{subst}
use native.Mathlib.Decide.{ℕ_discrete}
use pghoard.Receiver.{pop_if, pop_key, add_sorted, discard, exceeds_min}

-- A set of positions: a strictly ascending list.
abbrev pub Ascending : List ℕ → Type 0
Ascending [] = Unit
Ascending (k ∷ ks) = All (λ j. k < j) ks × Ascending ks

-- The keys of a dictionary: no two are equal.
abbrev pub Distinct : List ℕ → Type 0
Distinct [] = Unit
Distinct (k ∷ ks) = All (λ j. k ≢ j) ks × Distinct ks

unfoldable pub has : ℕ → List ℕ → Bool
has k [] = false
has k (j ∷ js) = let rest = has k js in k == j || rest

-- Two lists hold the same positions.
abbrev pub SameKeys : List ℕ → List ℕ → Type 0
SameKeys ks js = (i : ℕ) → has i ks ≡ has i js

pub or_swap : (a b c : Bool) → (b || (a || c)) ≡ ((a || b) || c)
or_swap true true c = refl
or_swap true false c = refl
or_swap false b c = refl

pub has-add_sorted : (i k : ℕ) (ks : List ℕ) → has i (add_sorted k ks) ≡ (i == k || has i ks)
unfolding has add_sorted
has-add_sorted i k [] = refl
has-add_sorted i k (j ∷ js) = ground (arith, has-add_sorted i k js)

pub add_sorted-All :
    (P : ℕ → Type 0) (k : ℕ) (ks : List ℕ) → P k → All P ks → All P (add_sorted k ks)
unfolding add_sorted
add_sorted-All P k [] p h = (p, tt)
add_sorted-All P k (j ∷ js) p h = elim (Bool-cases (ltb k j)) [
  | inl e ↦ rw e (p, h)
  | inr e ↦ rw e (elim (Bool-cases (k == j)) [
    | inl s ↦ rw s h
    | inr n ↦ rw n (h.0, add_sorted-All P k js p h.1)
  ])
]

pub All-less : (k j : ℕ) (js : List ℕ) → k < j → All (λ i. j < i) js → All (λ i. k < i) js
All-less k j [] l h = tt
All-less k j (i ∷ is) l h = (omega (arith, h.0), All-less k j is l h.1)

pub add_sorted-Ascending : (k : ℕ) (ks : List ℕ) → Ascending ks → Ascending (add_sorted k ks)
unfolding add_sorted
add_sorted-Ascending k [] h = (tt, tt)
add_sorted-Ascending k (j ∷ js) h = elim (Bool-cases (ltb k j)) [
  | inl e ↦ rw e ((ltb→lt k j e, All-less k j js (ltb→lt k j e) h.0), h)
  | inr e ↦ rw e (elim (Bool-cases (k == j)) [
    | inl s ↦ rw s h
    | inr n ↦
        rw n (
          add_sorted-All (λ i. j < i) k js (ground (arith, e, n)) h.0,
          add_sorted-Ascending k js h.1,
        )
  ])
]

-- The second loop: the set and the callbacks have the same keys, and the smallest goes first.
pub has-All : (P : ℕ → Type 0) (i : ℕ) (ks : List ℕ) → All P ks → has i ks ≡ true → P i
unfolding has
has-All P i [] h e = cc
has-All P i (k ∷ ks) h e = elim (Bool-cases (i == k)) [
  | inl s ↦ subst P (sym ((==_iff i k).0 s)) h.0
  | inr n ↦ has-All P i ks h.1 (ground (arith, e, n))
]

-- What `pop_key` leaves of a dictionary that has the key.
unfoldable pub Popped : ℕ → List ℕ → List ℕ → Type 0
Popped k ks js =
    (pop_key k ks ≡ ok js) × Distinct js × ((i : ℕ) → has i js ≡ (has i ks && not (i == k)))

pub has_none : (k : ℕ) (ks : List ℕ) → All (λ j. k ≢ j) ks → has k ks ≡ false
unfolding has
has_none k [] h = refl
has_none k (j ∷ js) h = ground (arith, has_none k js h.1, h.0)

-- Taking out the first key, and one after it.
pub has_here :
    (i k j : ℕ) (js : List ℕ)
    → k ≡ j
    → All (λ n. j ≢ n) js
    → has i js ≡ (has i (j ∷ js) && not (i == k))
unfolding has
has_here i k j js e h = elim (ℕ_discrete i k) [
  | yes s ↦
      subst (λ n. has n js ≡ (has n (j ∷ js) && not (n == k))) (sym s)
        (subst (λ n. has n js ≡ (has n (j ∷ js) && not (n == n))) (sym e)
          (has_none j js h ∙ ground arith))
  | no n ↦ ground (arith, n, e)
]

pub has_later :
    (i k j : ℕ) (js rest : List ℕ)
    → (k == j) ≡ false
    → has i rest ≡ (has i js && not (i == k))
    → has i (j ∷ rest) ≡ (has i (j ∷ js) && not (i == k))
unfolding has
has_later i k j js rest e h = ground (arith, e, h)

-- A key that is in no place of a list is in no place of a part of it.
pub All-part :
    (j : ℕ) (js rest : List ℕ)
    → All (λ n. j ≢ n) js
    → ((i : ℕ) → has i rest ≡ true → has i js ≡ true)
    → All (λ n. j ≢ n) rest
unfolding has
All-part j js [] h s = tt
All-part j js (r ∷ rs) h s = (
  has-All (λ n. j ≢ n) r js h (s r (ground arith)),
  All-part j js rs h (λ i e. s i (ground (arith, e))),
)

pub part_of : (a b c : Bool) → a ≡ (b && c) → a ≡ true → b ≡ true
part_of a true c h e = refl
part_of a false c h e = cc

pub Popped-here :
    (k j : ℕ) (js : List ℕ) → (k == j) ≡ true → Distinct (j ∷ js) → Popped k (j ∷ js) js
unfolding Popped pop_key
Popped-here k j js s d =
    (ap (λ b. pop_if b j js (pop_key k js)) s, d.1, λ i. has_here i k j js ((==_iff k j).0 s) d.0)

pub Popped-later :
    (k j : ℕ) (js rest : List ℕ)
    → (k == j) ≡ false
    → Distinct (j ∷ js)
    → Popped k js rest
    → Popped k (j ∷ js) (j ∷ rest)
unfolding Popped pop_key
Popped-later k j js rest n d h = (
  ap (λ b. pop_if b j js (pop_key k js)) n ∙ ap (pop_if false j js) h.0,
  (All-part j js rest d.0 (λ i e. part_of (has i rest) (has i js) _ (h.2 i) e), h.1),
  λ i. has_later i k j js rest n (h.2 i),
)

pub pop_lem : (k : ℕ) (ks : List ℕ) → has k ks ≡ true → Distinct ks → (js : List ℕ) × Popped k ks js
unfolding has
pop_lem k [] h d = cc
pop_lem k (j ∷ js) h d = elim (Bool-cases (k == j)) [
  | inl s ↦ (js, Popped-here k j js s d)
  | inr n ↦
      let later = pop_lem k js (ground (arith, h, n)) d.1 in
      (j ∷ later.0, Popped-later k j js later.0 n d later.1)
]

pub none_has : (ks : List ℕ) → ((i : ℕ) → false ≡ has i ks) → ks ≡ []
unfolding has
none_has [] h = refl
none_has (k ∷ ks) h = ground (arith, h k)

pub exceeds_none :
    (k : ℕ) (js : List ℕ) → ((i : ℕ) → has i js ≡ true → k < i) → exceeds_min k js ≡ false
unfolding exceeds_min has
exceeds_none k [] h = refl
exceeds_none k (j ∷ js) h =
    let later = exceeds_none k js (λ i e. h i (ground (arith, e))) in
    ground (arith, h j (ground arith), later)

pub discard_none : (k : ℕ) (ks : List ℕ) → All (λ j. k < j) ks → discard k ks ≡ ks
unfolding discard
discard_none k [] h = refl
discard_none k (j ∷ js) h = ground (arith, h.0, discard_none k js h.1)

pub discard_first : (k : ℕ) (ks : List ℕ) → All (λ j. k < j) ks → discard k (k ∷ ks) ≡ ks
unfolding discard
discard_first k ks h = ground (arith, discard_none k ks h)

pub larger_left :
    (k : ℕ) (ks callbacks js : List ℕ)
    → All (λ j. k < j) ks
    → SameKeys (k ∷ ks) callbacks
    → ((i : ℕ) → has i js ≡ (has i callbacks && not (i == k)))
    → (i : ℕ) → has i js ≡ true
    → k < i
unfolding has
larger_left k ks callbacks js h s f i e = has-All (λ j. k < j) i ks h (ground (arith, s i, f i, e))

pub later_false : (k : ℕ) (ks : List ℕ) → All (λ j. k < j) ks → has k ks ≡ false
unfolding has
later_false k [] h = refl
later_false k (j ∷ js) h = ground (arith, h.0, later_false k js h.1)

pub same_left :
    (k : ℕ) (ks callbacks js : List ℕ)
    → All (λ j. k < j) ks
    → SameKeys (k ∷ ks) callbacks
    → ((i : ℕ) → has i js ≡ (has i callbacks && not (i == k)))
    → SameKeys ks js
unfolding has
same_left k ks callbacks js h s f i = elim (ℕ_discrete i k) [
  | yes e ↦ ground (arith, f i, subst (λ n. has n ks ≡ false) (sym e) (later_false k ks h), e)
  | no n ↦ ground (arith, f i, s i, n)
]

pub has_first : (k : ℕ) (ks : List ℕ) → has k (k ∷ ks) ≡ true
unfolding has
has_first k ks = ground arith

pub or_false : (a : Bool) → (a || false) ≡ a
or_false true = refl
or_false false = refl
