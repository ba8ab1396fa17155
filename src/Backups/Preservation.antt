-- ===== src/Backups/Preservation.antt =====
-- `parse_preservation_requests` of pghoard/preservation_request.py.
-- A preservation request: the name of a backup, and the time until which it is kept.
use pghoard.Base.{
  Bool-cases, List, Option, Text, [], ap, arith, eq_of_text_eq, if◌then◌else◌, inl, inr, max, none,
  refl, some, text_eq, ℕ, ◌∙◌, ◌∷◌, ◌≡◌,
}

pub record PreservationRequest : Type 0 where
  pub preserve_backup : Text
  pub preserve_until : ℕ

-- A dictionary from the names of backups to times, as an association list.
pub get : Text → List (Text × ℕ) → Option ℕ
get name [] = none
get name ((n, t) ∷ rest) = if text_eq n name then some t else get name rest

-- `backups_to_preserve[name] = until`
put : Text → ℕ → List (Text × ℕ) → List (Text × ℕ)
put name until [] = (name, until) ∷ []
put name until ((n, t) ∷ rest) =
    if text_eq n name then (n, until) ∷ rest else (n, t) ∷ put name until rest

-- `max(backups_to_preserve[name], until)` where the name is there already
later : Option ℕ → ℕ → ℕ
later none until = until
later (some t) until = max t until

add_request : List (Text × ℕ) → PreservationRequest → List (Text × ℕ)
unfolding get put later
add_request kept r =
    put r.preserve_backup (later (get r.preserve_backup kept) r.preserve_until) kept

-- The loop over the requests.
add_requests : List (Text × ℕ) → List PreservationRequest → List (Text × ℕ)
unfolding add_request
add_requests kept [] = kept
add_requests kept (r ∷ rs) = add_requests (add_request kept r) rs

unfoldable pub parse_preservation_requests : List PreservationRequest → List (Text × ℕ)
unfolding add_requests
parse_preservation_requests requests = add_requests [] requests

-- Specification: the latest time that any of the requests names for a backup.
pub latest : Option ℕ → Text → List PreservationRequest → Option ℕ
unfolding later
latest best name [] = best
latest best name (r ∷ rs) =
    let newer = some (later best r.preserve_until) in
    latest (if text_eq r.preserve_backup name then newer else best) name rs

get-put :
    (k j : Text) (v : ℕ) (m : List (Text × ℕ))
    → get j (put k v m) ≡ (if text_eq k j then some v else get j m)
unfolding get put
get-put k j v [] = refl
get-put k j v ((i, w) ∷ m) = elim (Bool-cases (text_eq i k)) [
  | inl same ↦ let e = eq_of_text_eq i k same in rw (same, e) (ground arith)
  | inr other ↦ rw other (ground (arith, get-put k j v m, eq_of_text_eq i j, eq_of_text_eq k j))
]

get-add_request :
    (name : Text) (r : PreservationRequest) (kept : List (Text × ℕ))
    → get name (add_request kept r) ≡ (
        if text_eq r.preserve_backup name
        then some (later (get name kept) r.preserve_until)
        else get name kept)
unfolding add_request
get-add_request name r kept =
    let key = r.preserve_backup in
    let until = later (get key kept) r.preserve_until in
    ground (arith, eq_of_text_eq key name, get-put key name until kept)

add_requests-latest :
    (name : Text) (rs : List PreservationRequest) (kept : List (Text × ℕ))
    → get name (add_requests kept rs) ≡ latest (get name kept) name rs
unfolding latest add_requests
add_requests-latest name [] kept = refl
add_requests-latest name (r ∷ rs) kept =
    add_requests-latest name rs (add_request kept r)
    ∙ ap (λ o. latest o name rs) (get-add_request name r kept)

-- Of several requests for one backup the latest time counts, whatever their order among requests
-- for other backups; a backup that no request names has none.
pub parse_preservation_requests-latest :
    (name : Text) (rs : List PreservationRequest)
    → get name (parse_preservation_requests rs) ≡ latest none name rs
unfolding parse_preservation_requests get
parse_preservation_requests-latest name rs = add_requests-latest name rs []
