-- ===== src/Backups/Retention/Kept.antt =====
-- What `determine_backups_to_delete` of pghoard/pghoard.py deletes and what it keeps.
use pghoard.Base.{
  All, Bool, Bool-cases, List, [], arith, false, inl, inr, length, ltb, min, refl, true, ℕ, ◌++◌,
  ◌∷◌, ◌≡◌, ◌≤◌, ◌⊎◌,
}
use pghoard.Backups.Info.{Basebackup, is_basebackup_preserved}
use pghoard.Backups.Retention.{Selection, drop_excess, drop_old}

-- A selection takes a list apart at one place.
abbrev pub Splits : List Basebackup → Selection → Type 0
Splits bs s = s.to_delete ++ s.kept ≡ bs

pub drop_excess-Splits :
    (allowed now : ℕ) (bs : List Basebackup) → Splits bs (drop_excess allowed now bs)
unfolding drop_excess
drop_excess-Splits allowed now [] = refl
drop_excess-Splits allowed now (b ∷ bs) = ground (arith, drop_excess-Splits allowed now bs)

pub drop_old-Splits :
    (old : Basebackup → Bool) (least now : ℕ) (bs : List Basebackup)
    → Splits bs (drop_old old least now bs)
unfolding drop_old
drop_old-Splits old least now [] = refl
drop_old-Splits old least now (b ∷ bs) = ground (arith, drop_old-Splits old least now bs)

-- Nothing in the list is preserved at a time.
abbrev pub NonePreserved : ℕ → List Basebackup → Type 0
NonePreserved now = All (λ b. is_basebackup_preserved b now ≡ false)

pub drop_excess-NonePreserved :
    (allowed now : ℕ) (bs : List Basebackup)
    → NonePreserved now (drop_excess allowed now bs).to_delete
unfolding drop_excess
drop_excess-NonePreserved allowed now [] = tt
drop_excess-NonePreserved allowed now (b ∷ bs) = elim (Bool-cases (ltb allowed (length (b ∷ bs)))) [
  | inl many ↦ elim (Bool-cases (is_basebackup_preserved b now)) [
    | inl keep ↦ rw (many, keep) tt
    | inr free ↦ rw (many, free) (free, drop_excess-NonePreserved allowed now bs)
  ]
  | inr few ↦ rw few tt
]

pub drop_old-NonePreserved :
    (old : Basebackup → Bool) (least now : ℕ) (bs : List Basebackup)
    → All
        (λ b. (is_basebackup_preserved b now ≡ false) × (old b ≡ true))
        (drop_old old least now bs).to_delete
unfolding drop_old
drop_old-NonePreserved old least now [] = tt
drop_old-NonePreserved old least now (b ∷ bs) = elim (Bool-cases (ltb least (length (b ∷ bs)))) [
  | inl many ↦ elim (Bool-cases (is_basebackup_preserved b now)) [
    | inl keep ↦ rw (many, keep) tt
    | inr free ↦ elim (Bool-cases (old b)) [
      | inl gone ↦ rw (many, free, gone) ((free, gone), drop_old-NonePreserved old least now bs)
      | inr young ↦ rw (many, free, young) tt
    ]
  ]
  | inr few ↦ rw few tt
]

-- no deletion below the allowed count
pub drop_excess_count :
    (allowed now : ℕ) (bs : List Basebackup)
    → min (length bs) allowed ≤ length (drop_excess allowed now bs).kept
unfolding drop_excess
drop_excess_count allowed now [] = omega arith
drop_excess_count allowed now (b ∷ bs) = ground (arith, drop_excess_count allowed now bs)

pub drop_old_count :
    (old : Basebackup → Bool) (least now : ℕ) (bs : List Basebackup)
    → min (length bs) least ≤ length (drop_old old least now bs).kept
unfolding drop_old
drop_old_count old least now [] = omega arith
drop_old_count old least now (b ∷ bs) = ground (arith, drop_old_count old least now bs)

-- Why the first loop stopped: at most the allowed number is left, or the oldest left is preserved.
pub drop_excess_stop :
    (allowed now : ℕ) (bs : List Basebackup)
    → (length (drop_excess allowed now bs).kept ≤ allowed)
      ⊎ ((b : Basebackup) × (rest : List Basebackup) × ((drop_excess allowed now bs).kept
            ≡ b ∷ rest)
          × (is_basebackup_preserved b now ≡ true))
unfolding drop_excess
drop_excess_stop allowed now [] = inl (omega arith)
drop_excess_stop allowed now (b ∷ bs) = elim (Bool-cases (ltb allowed (length (b ∷ bs)))) [
  | inl many ↦ elim (Bool-cases (is_basebackup_preserved b now)) [
    | inl keep ↦ inr (b, bs, rw (many, keep) refl, keep)
    | inr free ↦ rw (many, free) (drop_excess_stop allowed now bs)
  ]
  | inr few ↦ rw few (inl (ground arith))
]

pub drop_old_stop :
    (old : Basebackup → Bool) (least now : ℕ) (bs : List Basebackup)
    → (length (drop_old old least now bs).kept ≤ least)
      ⊎ ((b : Basebackup) × (rest : List Basebackup) × ((drop_old old least now bs).kept ≡ b ∷ rest)
          × ((is_basebackup_preserved b now ≡ true) ⊎ (old b ≡ false)))
unfolding drop_old
drop_old_stop old least now [] = inl (omega arith)
drop_old_stop old least now (b ∷ bs) = elim (Bool-cases (ltb least (length (b ∷ bs)))) [
  | inl many ↦ elim (Bool-cases (is_basebackup_preserved b now)) [
    | inl keep ↦ inr (b, bs, rw (many, keep) refl, inl keep)
    | inr free ↦ elim (Bool-cases (old b)) [
      | inl gone ↦ rw (many, free, gone) (drop_old_stop old least now bs)
      | inr young ↦ inr (b, bs, rw (many, free, young) refl, inr young)
    ]
  ]
  | inr few ↦ rw few (inl (ground arith))
]
