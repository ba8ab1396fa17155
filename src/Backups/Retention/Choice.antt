-- ===== src/Backups/Retention/Choice.antt =====
-- What `determine_backups_to_delete` of pghoard/pghoard.py deletes and what it keeps.
use pghoard.Base.{
  All, All-append, List, Option, [], ap, arith, false, inl, inr, length, length-append, min, none,
  refl, some, true, ℕ, ◌++◌, ◌∙◌, ◌∷◌, ◌≡◌, ◌≤◌, ◌⊎◌,
}
use pghoard.Backups.Info.{Basebackup, is_basebackup_preserved}
use pghoard.Backups.Retention.{
  RetentionConfig, drop_excess, drop_old, is_too_old, age_limit, backup_interval, allowed_count,
  by_age, determine_backups_to_delete,
}
use pghoard.Backups.Retention.Kept.{
  Splits, NonePreserved, drop_excess-Splits, drop_old-Splits, drop_excess-NonePreserved,
  drop_old-NonePreserved, drop_excess_count, drop_old_count, drop_excess_stop, drop_old_stop,
}
use mathlib.Core.List.{append_assoc}

All-first : (P R : Basebackup → Type 0) (bs : List Basebackup) → All (λ b. P b × R b) bs → All P bs
All-first P R [] h = tt
All-first P R (b ∷ bs) h = (h.0.0, All-first P R bs h.1)

-- What stands from a preserved element on is no part of a prefix without preserved elements.
preserved_suffix :
    (now : ℕ) (zs ks xs : List Basebackup) (b : Basebackup) (ys : List Basebackup)
    → NonePreserved now zs
    → is_basebackup_preserved b now ≡ true
    → zs ++ ks ≡ xs ++ b ∷ ys
    → (ws : List Basebackup) × (ks ≡ ws ++ b ∷ ys)
preserved_suffix now [] ks xs b ys free keep e = (xs, e)
preserved_suffix now (z ∷ zs) ks [] b ys free keep e =
    let same : z ≡ b = cc e in absurd (grind (arith, same, free.0, keep))
preserved_suffix now (z ∷ zs) ks (x ∷ xs) b ys free keep e =
    preserved_suffix now zs ks xs b ys free.1 keep (cc e)

module _ (c : RetentionConfig) (now current_time : ℕ) where
  by_age-Splits : (o : Option ℕ) (bs : List Basebackup) → Splits bs (by_age o c now current_time bs)
  unfolding by_age
  by_age-Splits none bs = refl
  by_age-Splits (some days) bs =
      drop_old-Splits (is_too_old days (backup_interval c) current_time) c.basebackup_count_min now
        bs

  by_age-NonePreserved :
      (o : Option ℕ) (bs : List Basebackup)
      → NonePreserved now (by_age o c now current_time bs).to_delete
  unfolding by_age
  by_age-NonePreserved none bs = tt
  by_age-NonePreserved (some days) bs =
      let old = is_too_old days (backup_interval c) current_time in
      All-first (λ b. is_basebackup_preserved b now ≡ false) (λ b. old b ≡ true) _
        (drop_old-NonePreserved old c.basebackup_count_min now bs)

  by_age_count :
      (o : Option ℕ) (bs : List Basebackup)
      → min (length bs) c.basebackup_count_min ≤ length (by_age o c now current_time bs).kept
  unfolding by_age
  by_age_count none bs = omega arith
  by_age_count (some days) bs =
      drop_old_count (is_too_old days (backup_interval c) current_time) c.basebackup_count_min now
        bs

  by_age-length-le :
      (o : Option ℕ) (bs : List Basebackup)
      → length (by_age o c now current_time bs).kept ≤ length bs
  by_age-length-le o bs =
      let s = by_age o c now current_time bs in
      omega (arith, length-append {0} s.to_delete s.kept, ap length (by_age-Splits o bs))

  -- a preserved oldest backup ends the second loop at once
  by_age_preserved :
      (o : Option ℕ) (b : Basebackup) (bs : List Basebackup)
      → is_basebackup_preserved b now ≡ true
      → (by_age o c now current_time (b ∷ bs)).kept ≡ b ∷ bs
  unfolding by_age drop_old
  by_age_preserved none b bs h = refl
  by_age_preserved (some days) b bs h = ground arith

  -- The backups chosen for deletion are the oldest ones, in order, and the others stay in order.
  pub determine_backups_to_delete-append :
      (bs : List Basebackup)
      → (determine_backups_to_delete c now current_time bs).to_delete
          ++ (determine_backups_to_delete c now current_time bs).kept
        ≡ bs
  unfolding determine_backups_to_delete
  determine_backups_to_delete-append bs =
      let first = drop_excess (allowed_count c bs) now bs in
      append_assoc first.to_delete _ _
      ∙ ap (λ ys. first.to_delete ++ ys) (by_age-Splits (age_limit c) first.kept)
      ∙ drop_excess-Splits (allowed_count c bs) now bs

  -- No backup that is preserved at the time of the run is chosen for deletion.
  pub determine_backups_to_delete-NonePreserved :
      (bs : List Basebackup)
      → NonePreserved now (determine_backups_to_delete c now current_time bs).to_delete
  unfolding determine_backups_to_delete
  determine_backups_to_delete-NonePreserved bs =
      All-append (λ b. is_basebackup_preserved b now ≡ false) _ _
        (drop_excess-NonePreserved (allowed_count c bs) now bs)
        (by_age-NonePreserved (age_limit c) (drop_excess (allowed_count c bs) now bs).kept)

  -- The run keeps the configured number of backups, or the minimum that the age limit respects if
  -- that is smaller, or all if there are fewer.
  pub determine_backups_to_delete_count :
      (bs : List Basebackup)
      → min (length bs) (min (allowed_count c bs) c.basebackup_count_min)
        ≤ length (determine_backups_to_delete c now current_time bs).kept
  unfolding determine_backups_to_delete
  determine_backups_to_delete_count bs =
      let first = drop_excess (allowed_count c bs) now bs in
      omega (
        arith,
        by_age_count (age_limit c) first.kept,
        drop_excess_count (allowed_count c bs) now bs,
      )

  -- After the run at most the allowed number of backups is left, unless the oldest one left is
  -- preserved.
  pub determine_backups_to_delete_limit :
      (bs : List Basebackup)
      → (length (determine_backups_to_delete c now current_time bs).kept ≤ allowed_count c bs)
        ⊎ ((b : Basebackup) × (rest : List Basebackup) × ((determine_backups_to_delete c now
                current_time bs).kept
              ≡ b ∷ rest)
            × (is_basebackup_preserved b now ≡ true))
  unfolding determine_backups_to_delete
  determine_backups_to_delete_limit bs =
      let first = drop_excess (allowed_count c bs) now bs in
      elim (drop_excess_stop (allowed_count c bs) now bs) [
        | inl few ↦ inl (omega (arith, by_age-length-le (age_limit c) first.kept))
        | inr (b, rest, shape, keep) ↦ inr (
          b,
          rest,
          ap (λ ys. (by_age (age_limit c) c now current_time ys).kept) shape
              ∙ by_age_preserved (age_limit c) b rest keep,
          keep,
        )
      ]

  -- With an age limit, what is left is at most the minimum number, or its oldest backup is
  -- preserved or not too old.
  pub determine_backups_to_delete_age :
      (bs : List Basebackup) (days : ℕ)
      → age_limit c ≡ some days
      → (length (determine_backups_to_delete c now current_time bs).kept ≤ c.basebackup_count_min)
        ⊎ ((b : Basebackup) × (rest : List Basebackup) × ((determine_backups_to_delete c now
                current_time bs).kept
              ≡ b ∷ rest)
            × ((is_basebackup_preserved b now ≡ true)
                ⊎ (is_too_old days (backup_interval c) current_time b ≡ false)))
  unfolding determine_backups_to_delete by_age
  determine_backups_to_delete_age bs days e =
      let first = drop_excess (allowed_count c bs) now bs in
      rw e (
        drop_old_stop (is_too_old days (backup_interval c) current_time) c.basebackup_count_min now
          first.kept)

  -- A backup that is preserved at the time of the run stays, and so does every later one.
  pub determine_backups_to_delete_preserved :
      (xs : List Basebackup) (b : Basebackup) (ys : List Basebackup)
      → is_basebackup_preserved b now ≡ true
      → (ws : List Basebackup) × ((determine_backups_to_delete c now current_time
            (xs ++ b ∷ ys)).kept
          ≡ ws ++ b ∷ ys)
  determine_backups_to_delete_preserved xs b ys keep =
      let s = determine_backups_to_delete c now current_time (xs ++ b ∷ ys) in
      preserved_suffix now s.to_delete s.kept xs b ys
        (determine_backups_to_delete-NonePreserved (xs ++ b ∷ ys)) keep
        (determine_backups_to_delete-append (xs ++ b ∷ ys))
