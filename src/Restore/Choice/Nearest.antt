-- ===== src/Restore/Choice/Nearest.antt =====
-- `_find_nearest_basebackup` of pghoard/restore.py against the backups of the listing.
use pghoard.Base.{
  All, Bool-cases, List, Option, Result, Text, [], ap, false, inl, inr, ok, ok-injective,
  other_error, raise, refl, sym, text_lt, text_lt_asym, text_lt_irrefl, text_not_before, true, ℕ,
  ◌∙◌, ◌∷◌, ◌≡◌, ◌⊎◌,
}
use pghoard.Restore.Choice.{
  Listed, is_applicable, applicable_basebackups, insert_by_start, sort_by_start, last_basebackup,
  find_nearest_basebackup,
}

unfoldable pub In : Listed → List Listed → Type 0
In b [] = ⊥
In b (c ∷ cs) = (c ≡ b) ⊎ In b cs

-- `c` did not start after `b`.
abbrev pub NotAfter : Listed → Listed → Type 0
NotAfter b c = text_lt b.start_time c.start_time ≡ false

last-cons :
    (b t : Listed) (cs : List Listed) → last_basebackup cs ≡ ok t → last_basebackup (b ∷ cs) ≡ ok t
unfolding last_basebackup
last-cons b t [] h = cc
last-cons b t (c ∷ cs) h = h

All-insert_by_start :
    (P : Listed → Type 0) (b : Listed) (cs : List Listed)
    → All P (insert_by_start b cs)
    → P b × All P cs
unfolding insert_by_start
All-insert_by_start P b [] = λ h. h
All-insert_by_start P b (c ∷ cs) = elim (Bool-cases (text_lt c.start_time b.start_time)) [
  | inl e ↦ rw e (λ h. let rest = All-insert_by_start P b cs h.1 in (rest.0, (h.0, rest.1)))
  | inr e ↦ rw e (λ h. h)
]

-- The last of a list, when nothing of the list started after it.
Top : List Listed → Type 0
Top cs = (t : Listed) × (last_basebackup cs ≡ ok t) × All (NotAfter t) cs

tail-Top : (c : Listed) (cs : List Listed) → Top (c ∷ cs) → (cs ≡ []) ⊎ Top cs
unfolding Top last_basebackup
tail-Top c [] h = inl refl
tail-Top c (d ∷ ds) (t, l, h) = inr (t, l, h.1)

insert_by_start-Top :
    (b : Listed) (cs : List Listed) → (cs ≡ []) ⊎ Top cs → Top (insert_by_start b cs)
unfolding insert_by_start last_basebackup Top
insert_by_start-Top b [] h = (b, refl, (text_lt_irrefl b.start_time, tt))
insert_by_start-Top b (c ∷ cs) (inl e) = cc
insert_by_start-Top b (c ∷ cs) (inr (t, l, h)) =
    elim (Bool-cases (text_lt c.start_time b.start_time)) [
      | inl e ↦
          let (t', l', h') = insert_by_start-Top b cs (tail-Top c cs (t, l, h)) in
          let not_after =
            text_not_before t'.start_time b.start_time c.start_time
              (All-insert_by_start (NotAfter t') b cs h').0
              (text_lt_asym c.start_time b.start_time e) in
          rw e (t', last-cons c t' (insert_by_start b cs) l', (not_after, h'))
      | inr e ↦ rw e (t, l, (text_not_before t.start_time c.start_time b.start_time h.0 e, h))
    ]

sort_by_start-Top : (bs : List Listed) → (bs ≡ []) ⊎ Top (sort_by_start bs)
unfolding sort_by_start
sort_by_start-Top [] = inl refl
sort_by_start-Top (b ∷ bs) = inr (
    insert_by_start-Top b (sort_by_start bs)
      (elim (sort_by_start-Top bs) [ inl e ↦ inl (ap sort_by_start e) | inr h ↦ inr h ]))

All-sort_by_start : (P : Listed → Type 0) (bs : List Listed) → All P (sort_by_start bs) → All P bs
unfolding sort_by_start
All-sort_by_start P [] h = h
All-sort_by_start P (b ∷ bs) h =
    let step = All-insert_by_start P b (sort_by_start bs) h in
    (step.0, All-sort_by_start P bs step.1)

In-last : (t : Listed) (bs : List Listed) → last_basebackup bs ≡ ok t → In t bs
unfolding last_basebackup In
In-last t [] h = cc
In-last t (b ∷ []) h = inl (ok-injective h)
In-last t (b ∷ c ∷ cs) h = inr (In-last t (c ∷ cs) h)

In-insert_by_start :
    (t b : Listed) (cs : List Listed) → In t (insert_by_start b cs) → (b ≡ t) ⊎ In t cs
unfolding insert_by_start In
In-insert_by_start t b [] = λ h. h
In-insert_by_start t b (c ∷ cs) = elim (Bool-cases (text_lt c.start_time b.start_time)) [
  | inl e ↦ rw e (elim [
    | inl p ↦ inr (inl p)
    | inr h ↦ elim (In-insert_by_start t b cs h) [ inl p ↦ inl p | inr k ↦ inr (inr k) ]
  ])
  | inr e ↦ rw e (λ h. h)
]

In-sort_by_start : (t : Listed) (bs : List Listed) → In t (sort_by_start bs) → In t bs
unfolding sort_by_start In
In-sort_by_start t [] h = h
In-sort_by_start t (b ∷ bs) h = elim (In-insert_by_start t b (sort_by_start bs) h) [
  | inl p ↦ inl p
  | inr k ↦ inr (In-sort_by_start t bs k)
]

module _ (parse : Text → ℕ) (target : Option ℕ) where
  In-applicable_basebackups :
      (t : Listed) (bs : List Listed)
      → In t (applicable_basebackups parse target bs)
      → In t bs × (is_applicable parse target t ≡ true)
  unfolding applicable_basebackups In
  In-applicable_basebackups t [] = λ h. elim h [ ]
  In-applicable_basebackups t (b ∷ bs) = elim (Bool-cases (is_applicable parse target b)) [
    | inl e ↦ rw e (elim [
      | inl p ↦ (inl p, ap (is_applicable parse target) (sym p) ∙ e)
      | inr h ↦ let rest = In-applicable_basebackups t bs h in (inr rest.0, rest.1)
    ])
    | inr e ↦ rw e (λ h. let rest = In-applicable_basebackups t bs h in (inr rest.0, rest.1))
  ]

  All-applicable_basebackups :
      (P : Listed → Type 0) (bs : List Listed)
      → All P (applicable_basebackups parse target bs)
      → All (λ b. (is_applicable parse target b ≡ false) ⊎ P b) bs
  unfolding applicable_basebackups
  All-applicable_basebackups P [] = λ h. tt
  All-applicable_basebackups P (b ∷ bs) = elim (Bool-cases (is_applicable parse target b)) [
    | inl e ↦ rw e (λ h. (inr h.0, All-applicable_basebackups P bs h.1))
    | inr e ↦ rw e (λ h. (inl refl, All-applicable_basebackups P bs h))
  ]

  none_applicable :
      (bs : List Listed)
      → applicable_basebackups parse target bs ≡ []
      → All (λ b. is_applicable parse target b ≡ false) bs
  unfolding applicable_basebackups
  none_applicable [] = λ h. tt
  none_applicable (b ∷ bs) = elim (Bool-cases (is_applicable parse target b)) [
    | inl e ↦ rw e (λ h. cc)
    | inr e ↦ rw e (λ h. (refl, none_applicable bs h))
  ]

  -- What is promised of an answer: an applicable backup of the listing after which no applicable
  -- one started, and an error where none is applicable.
  pub IsNearest : List Listed → Result Listed → Type 0
  IsNearest bs (ok t) =
      In t bs
      × (is_applicable parse target t ≡ true)
      × All (λ b. (is_applicable parse target b ≡ false) ⊎ NotAfter t b) bs
  IsNearest bs (raise e) = (e ≡ other_error) × All (λ b. is_applicable parse target b ≡ false) bs

  -- The backup that is selected for a recovery target is in the listing, applies to the target, and
  -- no applicable backup started after it; the choice raises exactly when no backup is applicable.
  pub find_nearest_basebackup-IsNearest :
      (bs : List Listed) → IsNearest bs (find_nearest_basebackup parse target bs)
  unfolding find_nearest_basebackup IsNearest Top
  find_nearest_basebackup-IsNearest bs =
      elim (sort_by_start-Top (applicable_basebackups parse target bs)) [
        | inl e ↦ rw e (refl, none_applicable bs e)
        | inr (t, l, h) ↦
            let (i, a) = In-applicable_basebackups t bs (
              In-sort_by_start t (applicable_basebackups parse target bs)
                (In-last t (sort_by_start (applicable_basebackups parse target bs)) l)) in
            rw l (
              i,
              a,
              All-applicable_basebackups (NotAfter t) bs
                  (All-sort_by_start (NotAfter t) (applicable_basebackups parse target bs) h),
            )
      ]
