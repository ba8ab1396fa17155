-- ===== src/Sync/Missing/Needed.antt =====
-- Which files `check_and_upload_missing_local_files` of pghoard/archive_sync.py archives.
use pghoard.Base.{
  All, All-append, All-map, Bool, Bool-cases, List, Option, Text, [], false, if◌then◌else◌, inl,
  inr, none, refl, some, text_eq, text_lt, text_lt_asym, text_not_before, true, ℕ, ◌+◌, ◌==◌, ◌∷◌,
  ◌≡◌, ◌⊎◌,
}
use pghoard.Wal.Lsn.{is_wal_name, is_timeline_name}
use pghoard.Sync.Missing.{
  Head, absent, archived, ArchiveType, not_archived, timeline, wal, stop, is_before,
  archive_type_of, key_lt, insert_by, sort_by, Missing, needed, may_check, compare_hash, check_wal,
  check_head, visit, check_files, check_and_upload_missing_local_files,
}

-- The texts do not descend.
unfoldable pub Ascending : List Text → Type 0
Ascending [] = Unit
Ascending (x ∷ xs) = All (λ y. text_lt y x ≡ false) xs × Ascending xs

-- A file of a timeline, or a segment from the first required one up to before the current one.
abbrev pub ToArchive : Text → Option Text → Text → Type 0
ToArchive current first_required f =
    (is_timeline_name f ≡ true)
    ⊎ ((is_wal_name f ≡ true)
        × (text_lt current f ≡ false)
        × (text_eq f current ≡ false)
        × (is_before first_required f ≡ false))

pub insert_by-All :
    (P : Text → Type 0) (before : Text → Text → Bool) (x : Text) (xs : List Text)
    → P x
    → All P xs
    → All P (insert_by before x xs)
unfolding insert_by
insert_by-All P before x [] p h = (p, tt)
insert_by-All P before x (y ∷ ys) p h = elim (Bool-cases (before y x)) [
  | inl e ↦ rw e (h.0, insert_by-All P before x ys p h.1)
  | inr e ↦ rw e (p, h)
]

sort_by-All :
    (P : Text → Type 0) (before : Text → Text → Bool) (xs : List Text)
    → All P xs
    → All P (sort_by before xs)
unfolding sort_by
sort_by-All P before [] h = tt
sort_by-All P before (x ∷ xs) h =
    insert_by-All P before x (sort_by before xs) h.0 (sort_by-All P before xs h.1)

insert_by-Ascending :
    (x : Text) (xs : List Text) → Ascending xs → Ascending (insert_by text_lt x xs)
unfolding insert_by Ascending
insert_by-Ascending x [] h = (tt, tt)
insert_by-Ascending x (y ∷ ys) h = elim (Bool-cases (text_lt y x)) [
  | inl e ↦ rw e (
    insert_by-All (λ z. text_lt z y ≡ false) text_lt x ys (text_lt_asym y x e) h.0,
    insert_by-Ascending x ys h.1,
  )
  | inr e ↦ rw e ((e, All-map ys (λ z k. text_not_before z y x k e) h.0), h)
]

sort_by-Ascending : (xs : List Text) → Ascending (sort_by text_lt xs)
unfolding sort_by
sort_by-Ascending [] = unfold Ascending in tt
sort_by-Ascending (x ∷ xs) = insert_by-Ascending x (sort_by text_lt xs) (sort_by-Ascending xs)

type-cases :
    (current : Text) (first_required : Option Text) (f : Text)
    → (archive_type_of current first_required f ≡ not_archived)
      ⊎ (archive_type_of current first_required f ≡ stop)
      ⊎ ToArchive current first_required f
unfolding archive_type_of
type-cases current first_required f = elim (Bool-cases (is_timeline_name f)) [
  | inl t ↦ inr (inr (inl t))
  | inr t ↦ elim (Bool-cases (is_wal_name f)) [
    | inr w ↦ inl (rw t (rw w refl))
    | inl w ↦ elim (Bool-cases (text_eq f current)) [
      | inl c ↦ inl (rw t (rw w (rw c refl)))
      | inr c ↦ elim (Bool-cases (text_lt current f)) [
        | inl d ↦ inl (rw t (rw w (rw c (rw d refl))))
        | inr d ↦ elim (Bool-cases (is_before first_required f)) [
          | inl e ↦ inr (inl (rw t (rw w (rw c (rw d (rw e refl))))))
          | inr e ↦ inr (inr (inr (w, d, c, e)))
        ]
      ]
    ]
  ]
]

module _ (our_hash : Text → Option Text) (normal : Text → Text) (max_hash_checks : Option ℕ)
    (P : Text → Type 0) where
  abbrev Each : Missing → Type 0
  Each st = All P st.need_archival

  needed-Each : (f : Text) (st : Missing) → P f → Each st → Each (needed f st)
  needed-Each f st p h = All-append P st.need_archival (f ∷ []) h (p, tt)

  compare_hash-Each :
      (f remote : Text) (ours : Option Text) (st : Missing)
      → P f
      → Each st
      → Each (compare_hash our_hash normal max_hash_checks f remote ours st)
  unfolding compare_hash
  compare_hash-Each f remote none st p h = h
  compare_hash-Each f remote (some ours) st p h =
      elim (Bool-cases (text_eq (normal remote) (normal ours))) [
        | inl e ↦ rw e h
        | inr e ↦ rw e (needed-Each f st p h)
      ]

  unhashed-Each :
      (f : Text) (st : Missing)
      → P f
      → Each st
      → Each (
          if st.existing_wal_without_checksum_count == 0
          then needed f (record st { existing_wal_without_checksum_count = 1 })
          else record st {
            existing_wal_without_checksum_count = st.existing_wal_without_checksum_count + 1;
          })
  unhashed-Each f st p h = elim (Bool-cases (st.existing_wal_without_checksum_count == 0)) [
    | inl e ↦ simp e (All-append P st.need_archival (f ∷ []) h (p, tt))
    | inr e ↦ simp e h
  ]

  check_wal-Each :
      (f : Text) (remote : Option Text) (st : Missing)
      → P f
      → Each st
      → Each (check_wal our_hash normal max_hash_checks f remote st)
  unfolding check_wal
  check_wal-Each f none st p h = unhashed-Each f st p h
  check_wal-Each f (some []) st p h = unhashed-Each f st p h
  check_wal-Each f (some (c ∷ remote)) st p h = elim (Bool-cases (may_check max_hash_checks st)) [
    | inl e ↦ rw e (compare_hash-Each f (c ∷ remote) (our_hash f) _ p h)
    | inr e ↦ rw e h
  ]

  check_head-Each :
      (t : ArchiveType) (f : Text) (answer : Head) (st : Missing)
      → P f
      → Each st
      → Each (check_head our_hash normal max_hash_checks t f answer st)
  unfolding check_head
  check_head-Each t f absent st p h = needed-Each f st p h
  check_head-Each wal f (archived remote) st p h = check_wal-Each f remote st p h
  check_head-Each timeline f (archived remote) st p h = h
  check_head-Each stop f (archived remote) st p h = h
  check_head-Each not_archived f (archived remote) st p h = h

  visit-Each :
      (t : ArchiveType) (f : Text) (answer : Head) (others : Missing → Missing) (st : Missing)
      → (t ≡ not_archived) ⊎ (t ≡ stop) ⊎ P f
      → ((st' : Missing) → Each st' → Each (others st'))
      → Each st
      → Each (visit our_hash normal max_hash_checks t f answer others st)
  unfolding visit
  visit-Each stop f answer others st c k h = h
  visit-Each not_archived f answer others st c k h = k st h
  visit-Each timeline f answer others st (inl e) k h = cc
  visit-Each timeline f answer others st (inr (inl e)) k h = cc
  visit-Each timeline f answer others st (inr (inr p)) k h =
      k _ (check_head-Each timeline f answer st p h)
  visit-Each wal f answer others st (inl e) k h = cc
  visit-Each wal f answer others st (inr (inl e)) k h = cc
  visit-Each wal f answer others st (inr (inr p)) k h = k _ (check_head-Each wal f answer st p h)

module _ (our_hash : Text → Option Text) (normal : Text → Text) (max_hash_checks : Option ℕ)
    (head : Text → Head) (current : Text) (first_required : Option Text) where
  check_files-ToArchive :
      (files : List Text) (st : Missing)
      → All (ToArchive current first_required) st.need_archival
      → All
          (ToArchive current first_required)
          (check_files our_hash normal max_hash_checks head current first_required files
            st).need_archival
  unfolding check_files
  check_files-ToArchive [] st h = h
  check_files-ToArchive (f ∷ files) st h =
      visit-Each our_hash normal max_hash_checks (ToArchive current first_required)
        (archive_type_of current first_required f) f (head f)
        (check_files our_hash normal max_hash_checks head current first_required files) st
        (type-cases current first_required f) (check_files-ToArchive files) h

  -- The missing files are archived from the oldest to the newest, and each of them is a timeline's
  -- file or a segment from the first required one up to, and without, the current one.
  pub check_and_upload_missing_local_files-ToArchive :
      (listing : List Text)
      → Ascending (
          check_and_upload_missing_local_files our_hash normal max_hash_checks head current
            first_required listing)
        × All (ToArchive current first_required) (
            check_and_upload_missing_local_files our_hash normal max_hash_checks head current
              first_required listing)
  unfolding check_and_upload_missing_local_files
  check_and_upload_missing_local_files-ToArchive listing =
      let start : Missing = record {
        need_archival = [];
        hash_checks_done = 0;
        existing_wal_without_checksum_count = 0;
      } in
      let files = sort_by (λ a b. key_lt b a) listing in
      let found : Missing =
        check_files our_hash normal max_hash_checks head current first_required files start in
      (
        sort_by-Ascending found.need_archival,
        sort_by-All (ToArchive current first_required) text_lt found.need_archival
            (check_files-ToArchive files start tt),
      )
