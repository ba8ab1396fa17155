-- ===== src/Basebackup/Split/Groups.antt =====
-- `Split.antt`: the chunks as groups of the files of the walk, each file with the folders that it
-- is in.
use pghoard.Base.{
  All, All-append, Bool-cases, List, Result, Text, [], ap, arith, inl, inr, length, length-append,
  ltb, map, ok, raise, refl, sym, ℕ, ◌&&◌, ◌*◌, ◌++◌, ◌+◌, ◌∙◌, ◌∷◌, ◌≡◌, ◌≤◌, ◌⊎◌,
}
use mathlib.Core.List.{append_assoc, map-append}
use pghoard.Delta.Chunks.{concat, concat-append}
use pghoard.Basebackup.Files.{Operation, add, enter, leave, BackupFile, Item}
use pghoard.Basebackup.Split.{Chunking, without_last, switch_chunks, count_file}

abbrev pub Placed : Type 0
Placed = List BackupFile × BackupFile

unfoldable pub all_but_last {ℓ} : {A : Type ℓ} → List A → List A
unfolding without_last
all_but_last [] = []
all_but_last (x ∷ xs) = without_last x xs

-- The files of a walk, each with the folders that are open where it comes.
unfoldable pub after_item : List BackupFile → BackupFile → Operation → List BackupFile
unfolding all_but_last
after_item folders file enter = folders ++ file ∷ []
after_item folders file add = folders
after_item folders file leave = all_but_last folders

unfoldable pub placed_item : List BackupFile → BackupFile → Operation → List Placed
placed_item folders file leave = []
placed_item folders file operation = (folders, file) ∷ []

unfoldable pub placed_files : List BackupFile → List Item → List Placed
unfolding after_item placed_item
placed_files folders [] = []
placed_files folders (item ∷ items) =
    placed_item folders item.file item.operation
    ++ placed_files (after_item folders item.file item.operation) items

abbrev pub files_of : List Placed → List BackupFile
files_of = map λ placed. placed.1

-- The open folders of its first file, and its files.
unfoldable pub chunk_of : List Placed → List BackupFile
chunk_of [] = []
chunk_of (placed ∷ group) = placed.0 ++ placed.1 ∷ files_of group

unfoldable pub known_size : Result ℕ → ℕ
known_size (ok file_size) = file_size
known_size (raise error) = 0

module _ (getsize : Text → Result ℕ) where
  unfoldable pub file_size_of : BackupFile → ℕ
  unfolding known_size
  file_size_of file = known_size (getsize file.local_path)

  unfoldable pub group_size : List Placed → ℕ
  unfolding file_size_of
  group_size [] = 0
  group_size (placed ∷ group) = file_size_of placed.1 + group_size group

  -- Within the target, or a fifth of the target and one file.
  unfoldable pub IsWithin : ℕ → List Placed → Type 0
  IsWithin target_chunk_size group =
      (group_size group ≤ target_chunk_size)
      ⊎ (5 * group_size (all_but_last group) ≤ target_chunk_size)

  group_size-append :
      (group : List Placed) (placed : Placed)
      → group_size (group ++ placed ∷ []) ≡ group_size group + file_size_of placed.1
  unfolding group_size
  group_size-append [] placed = omega arith
  group_size-append (first ∷ group) placed = omega (arith, group_size-append group placed)

without_last-append {ℓ} :
    {A : Type ℓ} (x y : A) (xs : List A) → without_last x (xs ++ y ∷ []) ≡ x ∷ xs
unfolding without_last
without_last-append x y [] = refl
without_last-append x y (z ∷ xs) = ap (λ zs. x ∷ zs) (without_last-append z y xs)

pub all_but_last-append {ℓ} : {A : Type ℓ} (xs : List A) (y : A) → all_but_last (xs ++ y ∷ []) ≡ xs
unfolding all_but_last
all_but_last-append [] y = refl
all_but_last-append (x ∷ xs) y = without_last-append x y xs

-- A group with no file stands at the start only, where no folder is open.
unfoldable pub Started : List Placed → List BackupFile → Type 0
Started [] folders = folders ≡ []
Started (placed ∷ group) folders = Unit

Started-append :
    (group : List Placed) (placed : Placed) (folders : List BackupFile)
    → Started (group ++ placed ∷ []) folders
unfolding Started
Started-append [] placed folders = tt
Started-append (first ∷ group) placed folders = tt

chunk_of-append :
    (group : List Placed) (folders : List BackupFile) (file : BackupFile)
    → Started group folders
    → chunk_of (group ++ (folders, file) ∷ []) ≡ chunk_of group ++ file ∷ []
unfolding chunk_of Started
chunk_of-append [] folders file s = rw s refl
chunk_of-append (first ∷ group) folders file s =
    ap (λ files. first.0 ++ first.1 ∷ files)
      (map-append (λ placed. placed.1) group ((folders, file) ∷ []))
    ∙ sym (append_assoc first.0 (first.1 ∷ files_of group) (file ∷ []))

-- The groups behind a state of the loop: the closed ones and the current one.
pub record Grouped (getsize : Text → Result ℕ) (target_chunk_size : ℕ) (files : List Placed)
    (st : Chunking) : Type 0 where
  pub closed : List (List Placed)
  pub current : List Placed
  pub all_files : concat closed ++ current ≡ files
  pub chunks_are : st.chunks ≡ map chunk_of closed
  pub chunk_is : st.one_chunk_files ≡ chunk_of current
  pub started : Started current st.entered_folders
  pub size_is : st.one_chunk_size ≡ group_size getsize current
  pub closed_within : All (IsWithin getsize target_chunk_size) closed
  pub current_within : IsWithin getsize target_chunk_size current
  pub count_is : st.total_file_count ≡ length files

module _ (getsize : Text → Result ℕ) (target_chunk_size : ℕ) (files : List Placed)
    (st : Chunking) where
  module _ (file : BackupFile) (folders : List BackupFile) where
    -- The file joins the current chunk.
    join_chunk-Grouped :
        (5 * st.one_chunk_size ≤ target_chunk_size)
          ⊎ (st.one_chunk_size + file_size_of getsize file ≤ target_chunk_size)
        → Grouped getsize target_chunk_size files st
        → Grouped getsize target_chunk_size
            (files ++ (st.entered_folders, file) ∷ [])
            (record (count_file file (file_size_of getsize file) st) { entered_folders = folders })
    join_chunk-Grouped room g =
        let placed : Placed = (st.entered_folders, file) in
        record {
          closed = g.closed;
          current = g.current ++ placed ∷ [];
          all_files =
              sym (append_assoc (concat g.closed) g.current (placed ∷ []))
              ∙ ap (λ fs. fs ++ placed ∷ []) g.all_files;
          chunks_are = g.chunks_are;
          chunk_is =
              ap (λ fs. fs ++ file ∷ []) g.chunk_is
              ∙ sym (chunk_of-append g.current st.entered_folders file g.started);
          started = Started-append g.current placed folders;
          size_is =
              ap (λ n. n + file_size_of getsize file) g.size_is
              ∙ sym (group_size-append getsize g.current placed);
          closed_within = g.closed_within;
          current_within =
              unfold IsWithin in
              elim room [
                | inl few ↦ inr (rw (all_but_last-append g.current placed) (rw⁻¹ g.size_is few))
                | inr fits ↦
                    inl (rw (group_size-append getsize g.current placed) (rw⁻¹ g.size_is fits))
              ];
          count_is = omega (arith, g.count_is, length-append files (placed ∷ []));
        }

    -- The file begins the next chunk.
    next_chunk-Grouped :
        Grouped getsize target_chunk_size files st
        → Grouped getsize target_chunk_size
            (files ++ (st.entered_folders, file) ∷ [])
            (record (count_file file (file_size_of getsize file) (record st {
              chunks = st.chunks ++ st.one_chunk_files ∷ [];
              one_chunk_size = 0;
              one_chunk_files = st.entered_folders;
            })) { entered_folders = folders })
    next_chunk-Grouped g =
        let placed : Placed = (st.entered_folders, file) in
        record {
          closed = g.closed ++ g.current ∷ [];
          current = placed ∷ [];
          all_files = ap (λ fs. fs ++ placed ∷ []) (concat-append g.closed g.current ∙ g.all_files);
          chunks_are =
              rw g.chunks_are (rw g.chunk_is (sym (map-append chunk_of g.closed (g.current ∷ []))));
          chunk_is = unfold chunk_of in refl;
          started = unfold Started in tt;
          size_is = unfold group_size in omega arith;
          closed_within =
              All-append (IsWithin getsize target_chunk_size) g.closed (g.current ∷ [])
                g.closed_within (g.current_within, tt);
          current_within =
              unfold IsWithin all_but_last without_last group_size in inr (omega arith);
          count_is = omega (arith, g.count_is, length-append files (placed ∷ []));
        }

module _ (getsize : Text → Result ℕ) (target_chunk_size : ℕ) where
  pub place_file-Grouped :
      (files : List Placed) (st : Chunking) (file : BackupFile) (folders : List BackupFile)
      → Grouped getsize target_chunk_size files st
      → Grouped getsize target_chunk_size
          (files ++ (st.entered_folders, file) ∷ [])
          (record (count_file file
            (file_size_of getsize file)
            (switch_chunks target_chunk_size (file_size_of getsize file) st)) {
              entered_folders = folders;
            })
  unfolding switch_chunks
  place_file-Grouped files st file folders g =
      elim (Bool-cases (
        ltb target_chunk_size (5 * st.one_chunk_size)
        && ltb target_chunk_size (st.one_chunk_size + file_size_of getsize file))) [
          | inl e ↦ rw e (next_chunk-Grouped getsize target_chunk_size files st file folders g)
          | inr e ↦
              rw e (
                join_chunk-Grouped getsize target_chunk_size files st file folders (ground arith) g)
        ]

pub switch_chunks-entered_folders :
    (target_chunk_size file_size : ℕ) (st : Chunking)
    → (switch_chunks target_chunk_size file_size st).entered_folders ≡ st.entered_folders
unfolding switch_chunks
switch_chunks-entered_folders target_chunk_size file_size st = ground arith
