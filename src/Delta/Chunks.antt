-- ===== src/Delta/Chunks.antt =====
-- The chunks of pghoard/basebackup/delta.py.
use pghoard.Base.{
  All, All-append, Bool-cases, List, Text, [], all, ap, arith, elem, false, if◌then◌else◌, inl, inr,
  length, ltb, map, refl, sym, true, ℕ, ◌++◌, ◌+◌, ◌||◌, ◌∙◌, ◌∷◌, ◌≡◌, ◌≤◌, ◌⊎◌,
}
use mathlib.Core.List.{append_assoc, append-nil, map-append}
use pghoard.Delta.{
  SnapshotFile, ChunkFile, is_same_file, add_to_chunk, chunk_file, Split, is_empty, split_single,
  close_chunk, put_in_chunk, split_bundled, split_file, split_files, nothing_split, close_last,
  split_files_for_upload,
}

unfoldable pub bundled : List SnapshotFile → List SnapshotFile
bundled [] = []
bundled (file ∷ files) =
    let rest = bundled files in if file.should_be_bundled then file ∷ rest else rest

unfoldable pub total_size : List SnapshotFile → ℕ
total_size [] = 0
total_size (file ∷ files) = file.file_size + total_size files

unfoldable pub concat {ℓ} : {A : Type ℓ} → List (List A) → List A
concat [] = []
concat (xs ∷ xss) = xs ++ concat xss

-- A group of files for a chunk: it has a file, and is within the limit unless it has only one.
abbrev pub IsChunk : ℕ → List SnapshotFile → Type 0
IsChunk chunk_size files =
    (is_empty files ≡ false) × ((total_size files ≤ chunk_size) ⊎ (length files ≡ 1))

pub concat-append {ℓ} :
    {A : Type ℓ} (xss : List (List A)) (ys : List A) → concat (xss ++ ys ∷ []) ≡ concat xss ++ ys
unfolding concat
concat-append [] ys = append-nil ys
concat-append (xs ∷ xss) ys =
    ap (λ zs. xs ++ zs) (concat-append xss ys) ∙ sym (append_assoc xs (concat xss) ys)

total_size-append :
    (xs : List SnapshotFile) (file : SnapshotFile)
    → total_size (xs ++ file ∷ []) ≡ total_size xs + file.file_size
unfolding total_size
total_size-append [] file = omega arith
total_size-append (x ∷ xs) file = omega (arith, total_size-append xs file)

is_empty-append :
    (xs : List SnapshotFile) (file : SnapshotFile) → is_empty (xs ++ file ∷ []) ≡ false
unfolding is_empty
is_empty-append [] file = refl
is_empty-append (x ∷ xs) file = refl

add_all : List SnapshotFile → List ChunkFile → List ChunkFile
add_all [] chunk = chunk
add_all (file ∷ files) chunk = add_all files (add_to_chunk (chunk_file file) chunk)

-- The set of the tuples of a group of files.
unfoldable pub tuples : List SnapshotFile → List ChunkFile
unfolding add_all
tuples files = add_all files []

add_all-append :
    (xs : List SnapshotFile) (file : SnapshotFile) (chunk : List ChunkFile)
    → add_all (xs ++ file ∷ []) chunk ≡ add_to_chunk (chunk_file file) (add_all xs chunk)
unfolding add_all
add_all-append [] file chunk = refl
add_all-append (x ∷ xs) file chunk = add_all-append xs file (add_to_chunk (chunk_file x) chunk)

is_empty-add_to_chunk :
    (x : ChunkFile) (chunk : List ChunkFile) → is_empty (add_to_chunk x chunk) ≡ false
unfolding add_to_chunk is_empty
is_empty-add_to_chunk x [] = refl
is_empty-add_to_chunk x (y ∷ ys) = elim (Bool-cases (is_same_file x y)) [
  | inl e ↦ rw e refl
  | inr e ↦ rw e refl
]

is_empty-add_all :
    (files : List SnapshotFile) (chunk : List ChunkFile)
    → is_empty chunk ≡ false
    → is_empty (add_all files chunk) ≡ false
unfolding add_all
is_empty-add_all [] chunk h = h
is_empty-add_all (file ∷ files) chunk h =
    is_empty-add_all files (add_to_chunk (chunk_file file) chunk)
      (is_empty-add_to_chunk (chunk_file file) chunk)

is_empty-tuples : (files : List SnapshotFile) → is_empty (tuples files) ≡ is_empty files
unfolding tuples add_all is_empty add_to_chunk
is_empty-tuples [] = refl
is_empty-tuples (file ∷ files) = is_empty-add_all files (chunk_file file ∷ []) refl

empty_of : (xs : List SnapshotFile) → is_empty xs ≡ true → xs ≡ []
unfolding is_empty
empty_of [] h = refl
empty_of (x ∷ xs) h = cc

-- The chunks so far are the sets of the tuples of groups, and the size of the current one is known.
Represents : ℕ → Split → List (List SnapshotFile) → List SnapshotFile → Type 0
Represents chunk_size st groups group =
    (st.delta_chunks ≡ map tuples groups)
    × (st.current_chunk ≡ tuples group)
    × (st.current_chunk_size ≡ total_size group)
    × All (IsChunk chunk_size) groups
    × ((is_empty group ≡ true) ⊎ IsChunk chunk_size group)

close_chunk-Represents :
    (chunk_size : ℕ) (st : Split) (groups : List (List SnapshotFile)) (group : List SnapshotFile)
    → is_empty group ≡ false
    → Represents chunk_size st groups group
    → Represents chunk_size (close_chunk st) (groups ++ group ∷ []) []
unfolding Represents close_chunk is_empty total_size tuples add_all
close_chunk-Represents chunk_size st groups group some_file (chunks, current, size, all, chunk) = (
  ap (λ cs. cs ++ st.current_chunk ∷ []) chunks
      ∙ ap (λ c. map tuples groups ++ c ∷ []) current
      ∙ sym (map-append tuples groups (group ∷ [])),
  refl,
  refl,
  All-append (IsChunk chunk_size) groups (group ∷ []) all
      (elim chunk [ inl e ↦ cc | inr c ↦ (c, tt) ]),
  inl refl,
)

-- The file fits into the group, or is its first one.
put_in_chunk-Represents :
    (chunk_size : ℕ) (file : SnapshotFile) (st : Split) (groups : List (List SnapshotFile))
    (group : List SnapshotFile)
    → (is_empty group ≡ true) ⊎ (st.current_chunk_size + file.file_size ≤ chunk_size)
    → Represents chunk_size st groups group
    → Represents chunk_size (put_in_chunk file st) groups (group ++ file ∷ [])
unfolding Represents put_in_chunk tuples
put_in_chunk-Represents chunk_size file st groups group room (chunks, current, size, all, chunk) = (
  chunks,
  ap (add_to_chunk (chunk_file file)) current ∙ sym (add_all-append group file []),
  omega (arith, size, total_size-append group file),
  all,
  inr (
    is_empty-append group file,
    elim room [
      | inl e ↦ inr (rw (empty_of group e) refl)
      | inr fits ↦ inl (omega (arith, fits, size, total_size-append group file))
    ],
  ),
)

-- A step of the loop adds to the groups the file, if it is to be bundled.
Grows : ℕ → Split → List SnapshotFile → List SnapshotFile → Type 0
Grows chunk_size st before files =
    (groups : List (List SnapshotFile)) × (group : List SnapshotFile) × Represents chunk_size st
      groups group
    × (concat groups ++ group ≡ before ++ files)

split_bundled-Grows :
    (chunk_size : ℕ) (file : SnapshotFile) (st : Split) (groups : List (List SnapshotFile))
    (group : List SnapshotFile)
    → Represents chunk_size st groups group
    → Grows chunk_size (split_bundled chunk_size file st) (concat groups ++ group) (file ∷ [])
unfolding Grows split_bundled Represents
split_bundled-Grows chunk_size file st groups group r =
    let added = sym (append_assoc (concat groups) group (file ∷ [])) in
    let same : is_empty st.current_chunk ≡ is_empty group =
      ap is_empty r.1 ∙ is_empty-tuples group in
    elim (Bool-cases (is_empty group)) [
      | inl e ↦ rw (same ∙ e) (
        groups,
        group ++ file ∷ [],
        put_in_chunk-Represents chunk_size file st groups group (inl e) r,
        added,
      )
      | inr e ↦ elim (Bool-cases (ltb chunk_size (st.current_chunk_size + file.file_size))) [
        | inl over ↦ rw (same ∙ e) (
            rw over (
              groups ++ group ∷ [],
              file ∷ [],
              put_in_chunk-Represents chunk_size file (close_chunk st) (groups ++ group ∷ []) []
                  (inl (unfold is_empty in refl))
                  (close_chunk-Represents chunk_size st groups group e r),
              ap (λ fs. fs ++ file ∷ []) (concat-append groups group),
            ))
        | inr fits ↦ rw (same ∙ e) (
            rw fits (
              groups,
              group ++ file ∷ [],
              put_in_chunk-Represents chunk_size file st groups group (inr (ground (arith, fits)))
                  r,
              added,
            ))
      ]
    ]

split_file-Grows :
    (chunk_size : ℕ) (skip : List Text) (file : SnapshotFile) (st : Split)
    (groups : List (List SnapshotFile)) (group : List SnapshotFile)
    → Represents chunk_size st groups group
    → Grows chunk_size
        (split_file chunk_size skip file st)
        (concat groups ++ group)
        (bundled (file ∷ []))
unfolding split_file split_single bundled
split_file-Grows chunk_size skip file st groups group r = elim (Bool-cases file.should_be_bundled) [
  | inl y ↦ simp y (split_bundled-Grows chunk_size file st groups group r)
  | inr n ↦
      let same = sym (append-nil (concat groups ++ group)) in
      elim (Bool-cases (is_empty file.hexdigest || elem file.hexdigest skip)) [
        | inl k ↦ simp n (rw k (unfold Grows in (groups, group, r, same)))
        | inr k ↦ simp n (rw k (unfold Grows Represents in (groups, group, r, same)))
      ]
]

bundled-first :
    (file : SnapshotFile) (files : List SnapshotFile)
    → bundled (file ∷ files) ≡ bundled (file ∷ []) ++ bundled files
unfolding bundled
bundled-first file files = elim (Bool-cases file.should_be_bundled) [
  | inl y ↦ simp y refl
  | inr n ↦ simp n refl
]

split_files-Grows :
    (chunk_size : ℕ) (skip : List Text) (files : List SnapshotFile) (st : Split)
    (groups : List (List SnapshotFile)) (group : List SnapshotFile)
    → Represents chunk_size st groups group
    → Grows chunk_size
        (split_files chunk_size skip files st)
        (concat groups ++ group)
        (bundled files)
unfolding split_files Grows
split_files-Grows chunk_size skip [] st groups group r =
    (groups, group, r, unfold bundled in sym (append-nil (concat groups ++ group)))
split_files-Grows chunk_size skip (file ∷ files) st groups group r =
    let (gs, g, r', one) = split_file-Grows chunk_size skip file st groups group r in
    let (hs, h, r'', others) =
      split_files-Grows chunk_size skip files (split_file chunk_size skip file st) gs g r' in
    (
      hs,
      h,
      r'',
      others
          ∙ ap (λ fs. fs ++ bundled files) one
          ∙ append_assoc (concat groups ++ group) (bundled (file ∷ [])) (bundled files)
          ∙ ap (λ fs. (concat groups ++ group) ++ fs) (sym (bundled-first file files)),
    )

close_last_lem :
    (chunk_size : ℕ) (st : Split) (groups : List (List SnapshotFile)) (group : List SnapshotFile)
    → Represents chunk_size st groups group
    → (all : List (List SnapshotFile)) × ((close_last st).delta_chunks ≡ map tuples all)
      × (concat all ≡ concat groups ++ group)
      × All (IsChunk chunk_size) all
unfolding close_last Represents
close_last_lem chunk_size st groups group r =
    let same : is_empty st.current_chunk ≡ is_empty group =
      ap is_empty r.1 ∙ is_empty-tuples group in
    elim (Bool-cases (is_empty group)) [
      | inl e ↦ rw (same ∙ e) (
        groups,
        r.0,
        sym (ap (λ g. concat groups ++ g) (empty_of group e) ∙ append-nil (concat groups)),
        r.3,
      )
      | inr e ↦
          let closed = close_chunk-Represents chunk_size st groups group e r in
          rw (same ∙ e) (groups ++ group ∷ [], closed.0, concat-append groups group, closed.3)
    ]

-- The files of a snapshot that are to be bundled fall, in their order, into groups, none empty, of
-- which one of more than one file is not above the limit; and the chunks are the sets of the tuples
-- of these groups.
pub split_files_for_upload_lem :
    (chunk_size : ℕ) (skip_hexdigests : List Text) (files : List SnapshotFile)
    → (groups : List (List SnapshotFile)) × ((split_files_for_upload chunk_size skip_hexdigests
          files).0
        ≡ map tuples groups)
      × (concat groups ≡ bundled files)
      × All (IsChunk chunk_size) groups
unfolding split_files_for_upload Grows
split_files_for_upload_lem chunk_size skip files =
    let start : Represents chunk_size nothing_split [] [] =
      unfold Represents is_empty total_size tuples add_all in (refl, refl, refl, tt, inl refl) in
    let (groups, group, r, every) =
      split_files-Grows chunk_size skip files nothing_split [] [] start in
    let (all, chunks, same, limits) =
      close_last_lem chunk_size (split_files chunk_size skip files nothing_split) groups group r in
    (all, chunks, same ∙ every ∙ unfold concat in refl, limits)
