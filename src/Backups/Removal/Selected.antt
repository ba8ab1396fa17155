-- ===== src/Backups/Removal/Selected.antt =====
-- The delta backups that `_get_delta_basebackup_files` of pghoard/pghoard.py looks at.
use pghoard.Base.{
  >>=-eq-ok, Bool, Bool-cases, List, Text, [], ap, false, if◌then◌else◌, inl, inr, ok, ok-injective,
  refl, sym, text_eq, true, ◌∙◌, ◌∷◌, ◌≡◌, ◌⊎◌,
}
use mathlib.Core.Path.{subst}
use pghoard.Backups.Info.{Basebackup}
use pghoard.Backups.Removal.{is_delta, delta_backups, without_name}

-- A backup is in a list.
abbrev pub In : Basebackup → List Basebackup → Type 0
In b [] = ⊥
In b (x ∷ xs) = (b ≡ x) ⊎ In b xs

In-kept :
    (p : Bool) (b x : Basebackup) (xs : List Basebackup)
    → (b ≡ x → p ≡ true)
    → In b (x ∷ xs)
    → In b (if p then x ∷ xs else xs)
In-kept true b x xs h m = m
In-kept false b x xs h (inl e) = let bad : false ≡ true = h e in cc
In-kept false b x xs h (inr m) = m

In-source :
    (p : Bool) (b x : Basebackup) (xs : List Basebackup)
    → In b (if p then x ∷ xs else xs)
    → ((b ≡ x) × (p ≡ true)) ⊎ In b xs
In-source true b x xs (inl e) = inl (e, refl)
In-source true b x xs (inr m) = inr m
In-source false b x xs m = inr m

abbrev IsDelta : Basebackup → Type 0
IsDelta b = is_delta b.metadata.format ≡ ok true

pub In-delta_backups :
    (b : Basebackup) (bs ds : List Basebackup)
    → delta_backups bs ≡ ok ds
    → In b bs
    → IsDelta b
    → In b ds
unfolding delta_backups
In-delta_backups b [] ds h m d = elim m [ ]
In-delta_backups b (x ∷ xs) ds h m d =
    let (delta, known, e) = >>=-eq-ok (is_delta x.metadata.format) _ h in
    let (rest, others, last) = >>=-eq-ok (delta_backups xs) _ e in
    subst (In b) (ok-injective last) (
      In-kept delta b x rest
        (λ same.
          ok-injective (sym known ∙ subst (λ y. is_delta y.metadata.format ≡ ok true) same d))
        (elim m [
          | inl same ↦ inl same
          | inr later ↦ inr (In-delta_backups b xs rest others later d)
        ]))

pub delta_backups-In :
    (b : Basebackup) (bs ds : List Basebackup)
    → delta_backups bs ≡ ok ds
    → In b ds
    → In b bs × IsDelta b
unfolding delta_backups
delta_backups-In b [] ds h m = elim (subst (In b) (sym (ok-injective h)) m) [ ]
delta_backups-In b (x ∷ xs) ds h m =
    let (delta, known, e) = >>=-eq-ok (is_delta x.metadata.format) _ h in
    let (rest, others, last) = >>=-eq-ok (delta_backups xs) _ e in
    elim (In-source delta b x rest (subst (In b) (sym (ok-injective last)) m)) [
      | inl (same, positive) ↦ (
        inl same,
        subst (λ y. is_delta y.metadata.format ≡ ok true) (sym same) (known ∙ ap ok positive),
      )
      | inr later ↦ let (there, is) = delta_backups-In b xs rest others later in (inr there, is)
    ]

pub In-without_name :
    (name : Text) (b : Basebackup) (bs : List Basebackup)
    → In b bs
    → text_eq b.name name ≡ false
    → In b (without_name name bs)
unfolding without_name
In-without_name name b [] h d = h
In-without_name name b (x ∷ xs) h d = elim (Bool-cases (text_eq x.name name)) [
  | inl e ↦ rw e (elim h [
    | inl same ↦
        let bad : true ≡ false = sym e ∙ subst (λ y. text_eq y.name name ≡ false) same d in cc
    | inr m ↦ In-without_name name b xs m d
  ])
  | inr e ↦ rw e (elim h [ inl same ↦ inl same | inr m ↦ inr (In-without_name name b xs m d) ])
]

In-rest :
    (p : Bool) (b x : Basebackup) (xs : List Basebackup)
    → In b (if p then xs else x ∷ xs)
    → ((b ≡ x) × (p ≡ false)) ⊎ In b xs
In-rest false b x xs (inl e) = inl (e, refl)
In-rest false b x xs (inr m) = inr m
In-rest true b x xs m = inr m

pub without_name-In :
    (name : Text) (b : Basebackup) (bs : List Basebackup)
    → In b (without_name name bs)
    → In b bs × (text_eq b.name name ≡ false)
unfolding without_name
without_name-In name b [] h = elim h [ ]
without_name-In name b (x ∷ xs) h =
    elim (In-rest (text_eq x.name name) b x (without_name name xs) h) [
      | inl (same, other) ↦ (inl same, subst (λ y. text_eq y.name name ≡ false) (sym same) other)
      | inr m ↦ let (there, d) = without_name-In name b xs m in (inr there, d)
    ]
