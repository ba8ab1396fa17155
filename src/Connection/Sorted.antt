-- ===== src/Connection/Sorted.antt =====
-- `Connection.antt`: the order of the fields.
use pghoard.Base.{
  All, Bool-cases, Text, [], false, inl, inr, text_eq, text_eq-false, text_lt, ◌∷◌, ◌≡◌,
}
use pghoard.Connection.{Fields, insert_field, sort_fields}

abbrev pub Differs : Text × Text → Text × Text → Type 0
Differs field other = text_eq field.0 other.0 ≡ false

-- No two fields have one key.
unfoldable pub IsDict : Fields → Type 0
IsDict [] = Unit
IsDict (field ∷ fields) = All (Differs field) fields × IsDict fields

insert_field-All :
    (P : Text × Text → Type 0) (field : Text × Text) (fields : Fields)
    → P field
    → All P fields
    → All P (insert_field field fields)
unfolding insert_field
insert_field-All P field [] h k = (h, tt)
insert_field-All P field (other ∷ fields) h k = elim (Bool-cases (text_lt other.0 field.0)) [
  | inl e ↦ rw e (k.0, insert_field-All P field fields h k.1)
  | inr e ↦ rw e (h, k)
]

insert_field-IsDict :
    (field : Text × Text) (fields : Fields)
    → All (Differs field) fields
    → IsDict fields
    → IsDict (insert_field field fields)
unfolding insert_field IsDict
insert_field-IsDict field [] h k = (tt, tt)
insert_field-IsDict field (other ∷ fields) h k = elim (Bool-cases (text_lt other.0 field.0)) [
  | inl e ↦ rw e (
    insert_field-All (Differs other) field fields (text_eq-false field.0 other.0 h.0) k.0,
    insert_field-IsDict field fields h.1 k.1,
  )
  | inr e ↦ rw e (h, k)
]

pub sort_fields-All :
    (P : Text × Text → Type 0) (fields : Fields) → All P fields → All P (sort_fields fields)
unfolding sort_fields
sort_fields-All P [] h = tt
sort_fields-All P (field ∷ fields) h =
    insert_field-All P field (sort_fields fields) h.0 (sort_fields-All P fields h.1)

pub sort_fields-IsDict : (fields : Fields) → IsDict fields → IsDict (sort_fields fields)
unfolding sort_fields IsDict
sort_fields-IsDict [] h = tt
sort_fields-IsDict (field ∷ fields) h =
    insert_field-IsDict field (sort_fields fields) (sort_fields-All (Differs field) fields h.0)
      (sort_fields-IsDict fields h.1)
