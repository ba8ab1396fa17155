-- ===== src/Sync/Missing/Order.antt =====
-- `Missing.antt`: the order in which the files are looked at, and the names of segments.
use pghoard.Base.{
  All, All-map, Bool, Bool-cases, List, Option, Text, [], ap, arith, codes, drop, eq_of_text_eq,
  false, if◌then◌else◌, inl, inr, length, none, refl, some, suc, sym, text_eq, text_lt,
  text_lt_asym, text_not_before, true, zero, ℕ, ◌&&◌, ◌+◌, ◌-◌, ◌<◌, ◌||◌, ◌∙◌, ◌∷◌, ◌≡◌, ◌≤◌, ◌⊎◌,
}
use mathlib.Core.Path.{subst}
use pghoard.Wal.Lsn.{is_name_digit, after_digits, at_end, ends, is_wal_name}
use pghoard.Sync.Missing.{ends_in_history, key_lt, insert_by, sort_by}
use pghoard.Sync.Missing.Needed.{insert_by-All}

abbrev pub Has : Text → List Text → Type 0
Has f [] = ⊥
Has f (x ∷ xs) = (f ≡ x) ⊎ Has f xs

pub All-Has : (P : Text → Type 0) (f : Text) (xs : List Text) → All P xs → Has f xs → P f
All-Has P f [] h m = elim m [ ]
All-Has P f (x ∷ xs) h (inl e) = subst P (sym e) h.0
All-Has P f (x ∷ xs) h (inr m) = All-Has P f xs h.1 m

Has-insert_by :
    (before : Text → Text → Bool) (f x : Text) (xs : List Text)
    → Has f (x ∷ xs)
    → Has f (insert_by before x xs)
unfolding insert_by
Has-insert_by before f x [] h = h
Has-insert_by before f x (y ∷ ys) h = elim (Bool-cases (before y x)) [
  | inr e ↦ rw e h
  | inl e ↦ rw e (elim h [
    | inl same ↦ inr (Has-insert_by before f x ys (inl same))
    | inr (inl same) ↦ inl same
    | inr (inr m) ↦ inr (Has-insert_by before f x ys (inr m))
  ])
]

pub Has-sort_by :
    (before : Text → Text → Bool) (f : Text) (xs : List Text) → Has f xs → Has f (sort_by before xs)
unfolding sort_by
Has-sort_by before f [] m = m
Has-sort_by before f (x ∷ xs) (inl e) = Has-insert_by before f x (sort_by before xs) (inl e)
Has-sort_by before f (x ∷ xs) (inr m) =
    Has-insert_by before f x (sort_by before xs) (inr (Has-sort_by before f xs m))

-- No file has a greater key than one before it.
abbrev pub Descending : List Text → Type 0
Descending [] = Unit
Descending (x ∷ xs) = All (λ y. key_lt x y ≡ false) xs × Descending xs

key_not_before_by :
    (p q r : Bool) (x y z : Text)
    → (if p then q && text_lt x y else q || text_lt x y) ≡ false
    → (if q then r && text_lt y z else r || text_lt y z) ≡ false
    → (if p then r && text_lt x z else r || text_lt x z) ≡ false
key_not_before_by true true true x y z h k = text_not_before x y z h k
key_not_before_by true true false x y z h k = refl
key_not_before_by true false true x y z h k = cc
key_not_before_by true false false x y z h k = refl
key_not_before_by false true r x y z h k = cc
key_not_before_by false false true x y z h k = cc
key_not_before_by false false false x y z h k = text_not_before x y z h k

key_asym_by :
    (p q : Bool) (x y : Text)
    → (if p then q && text_lt x y else q || text_lt x y) ≡ true
    → (if q then p && text_lt y x else p || text_lt y x) ≡ false
key_asym_by true true x y h = text_lt_asym x y h
key_asym_by true false x y h = cc
key_asym_by false true x y h = refl
key_asym_by false false x y h = text_lt_asym x y h

key_not_before : (x y z : Text) → key_lt x y ≡ false → key_lt y z ≡ false → key_lt x z ≡ false
unfolding key_lt
key_not_before x y z h k =
    key_not_before_by (ends_in_history x) (ends_in_history y) (ends_in_history z) x y z h k

key_asym : (x y : Text) → key_lt x y ≡ true → key_lt y x ≡ false
unfolding key_lt
key_asym x y h = key_asym_by (ends_in_history x) (ends_in_history y) x y h

insert_by-Descending :
    (x : Text) (xs : List Text) → Descending xs → Descending (insert_by (λ a b. key_lt b a) x xs)
unfolding insert_by
insert_by-Descending x [] h = (tt, tt)
insert_by-Descending x (y ∷ ys) h = elim (Bool-cases (key_lt x y)) [
  | inl e ↦ rw e (
    insert_by-All (λ z. key_lt y z ≡ false) (λ a b. key_lt b a) x ys (key_asym x y e) h.0,
    insert_by-Descending x ys h.1,
  )
  | inr e ↦ rw e ((e, All-map ys (λ z k. key_not_before x y z e k) h.0), h)
]

pub sort_by-Descending : (xs : List Text) → Descending (sort_by (λ a b. key_lt b a) xs)
unfolding sort_by
sort_by-Descending [] = tt
sort_by-Descending (x ∷ xs) =
    insert_by-Descending x (sort_by (λ a b. key_lt b a) xs) (sort_by-Descending xs)

digits_drop :
    (k n : ℕ) (cs r : Text)
    → after_digits n cs ≡ some r
    → k < n
    → (c : ℕ) × (rest : Text) × (drop k cs ≡ c ∷ rest) × (is_name_digit c ≡ true)
unfolding after_digits
digits_drop k zero cs r h l = absurd (omega arith)
digits_drop k (suc n) [] r h l = cc
digits_drop zero (suc n) (c ∷ cs) r h l = elim (Bool-cases (is_name_digit c)) [
  | inl e ↦ (c, cs, refl, e)
  | inr e ↦ let bad : none ≡ some r = sym (rw e refl) ∙ h in cc
]
digits_drop (suc k) (suc n) (c ∷ cs) r h l = elim (Bool-cases (is_name_digit c)) [
  | inl e ↦ digits_drop k n cs r (sym (rw e refl) ∙ h) (omega arith)
  | inr e ↦ let bad : none ≡ some r = sym (rw e refl) ∙ h in cc
]

digits_length : (n : ℕ) (cs r : Text) → after_digits n cs ≡ some r → length cs ≡ n + length r
unfolding after_digits
digits_length zero cs r h = let same : cs ≡ r = cc in omega (arith, ap length same)
digits_length (suc n) [] r h = cc
digits_length (suc n) (c ∷ cs) r h = elim (Bool-cases (is_name_digit c)) [
  | inl e ↦ omega (arith, digits_length n cs r (sym (rw e refl) ∙ h))
  | inr e ↦ let bad : none ≡ some r = sym (rw e refl) ∙ h in cc
]

at_end_short : (r : Text) → at_end r ≡ true → length r ≤ 1
unfolding at_end
at_end_short [] h = omega arith
at_end_short (c ∷ []) h = omega arith
at_end_short (c ∷ d ∷ r) h = cc

ends-cases : (o : Option Text) → ends o ≡ true → (r : Text) × (o ≡ some r) × (length r ≤ 1)
unfolding ends
ends-cases none h = cc
ends-cases (some r) h = (r, refl, at_end_short r h)

abbrev first_code : Text → ℕ
first_code [] = 0
first_code (c ∷ cs) = c

-- The name of a segment does not end like that of a timeline's file.
pub ends_in_history-wal : (f : Text) → is_wal_name f ≡ true → ends_in_history f ≡ false
unfolding is_wal_name ends_in_history is_name_digit
ends_in_history-wal f w = elim (Bool-cases (ends_in_history f)) [
  | inr e ↦ e
  | inl e ↦
      let (r, digits, short) = ends-cases (after_digits 24 f) w in
      let long = digits_length 24 f r digits in
      let (c, rest, there, digit) =
        digits_drop (length f - 8) 24 f r digits (omega (arith, long, short)) in
      let found : text_eq (drop (length f - 8) f) (codes ".history") ≡ true = ground (arith, e) in
      let dot : c ≡ 46 = ap first_code (sym there ∙ eq_of_text_eq _ _ found) in
      let bad : is_name_digit 46 ≡ true = subst (λ d. is_name_digit d ≡ true) dot digit in cc
]
