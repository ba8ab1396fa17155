-- ===== src/Connection/RoundTrip.antt =====
-- `Connection.antt`: what is printed is read back.
use pghoard.Base.{
  All, All-append, All-map, Bool-cases, Text, [], ap, arith, false, inl, inr, length, length-append,
  refl, some, suc, sym, zero, ℕ, ◌++◌, ◌+◌, ◌<◌, ◌==◌, ◌∙◌, ◌∷◌, ◌≡◌, ◌≤◌,
}
use mathlib.Core.List.{append_assoc, append-nil}
use pghoard.Connection.Sorted.{Differs, IsDict, sort_fields-All, sort_fields-IsDict}
use pghoard.Connection.{
  Fields, escape_quotes, print_field, print_fields, sort_fields, create_connection_string, is_space,
  lstrip_space, strip_after, rstrip_space, strip, split_key, quoted_value, value_of, set_field,
  ParsedFields, parsed, with_value, with_key, next_field, then_parse, parse_stripped, parse_loop,
  parse_connection_string_libpq,
}

-- A key has no equals sign and does not begin with white space, and a value has no backslash.
StartsPlain : Text → Type 0
StartsPlain [] = Unit
StartsPlain (c ∷ s) = is_space c ≡ false

unfoldable pub IsPrintable : Text × Text → Type 0
unfolding StartsPlain
IsPrintable (key, value) =
    All (λ c. (c == b'=') ≡ false) key × StartsPlain key × All (λ c. (c == b'\\') ≡ false) value

split_key-append :
    (key rest : Text)
    → All (λ c. (c == b'=') ≡ false) key
    → split_key (key ++ b'=' ∷ rest) ≡ some (key, rest)
unfolding split_key
split_key-append [] rest h = refl
split_key-append (c ∷ key) rest h = rw h.0 (rw (split_key-append key rest h.1) refl)

quoted_value-escape_quotes :
    (value rest : Text)
    → All (λ c. (c == b'\\') ≡ false) value
    → quoted_value false (escape_quotes value ++ b'\'' ∷ rest) ≡ some (value, rest)
unfolding quoted_value escape_quotes
quoted_value-escape_quotes [] rest h = refl
quoted_value-escape_quotes (c ∷ value) rest h = elim (Bool-cases (c == b'\'')) [
  | inl e ↦
      let is_quote : c ≡ b'\'' = ground (arith, e) in
      rw e (
        rw (quoted_value-escape_quotes value rest h.1)
          (ap (λ d. some (d ∷ value, rest)) (sym is_quote)))
  | inr e ↦ rw e (rw e (rw h.0 (rw (quoted_value-escape_quotes value rest h.1) refl)))
]

next_field-print_field :
    (field : Text × Text) (rest : Text)
    → IsPrintable field
    → next_field (print_field field ++ rest) ≡ some (field.0, field.1, rest)
unfolding next_field print_field value_of IsPrintable
next_field-print_field (key, value) rest (k, p, v) =
    ap (λ s. with_key (split_key s))
      (append_assoc key (b'=' ∷ b'\'' ∷ (escape_quotes value ++ b'\'' ∷ [])) rest
        ∙ ap (λ s. key ++ b'=' ∷ b'\'' ∷ s) (append_assoc (escape_quotes value) (b'\'' ∷ []) rest))
    ∙ ap with_key (split_key-append key (b'\'' ∷ (escape_quotes value ++ b'\'' ∷ rest)) k)
    ∙ ap (with_value key) (quoted_value-escape_quotes value rest v)

-- The text ends in a quote.
unfoldable pub Closed : Text → Type 0
Closed s = (init : Text) × (s ≡ init ++ b'\'' ∷ [])

rstrip_space-append : (s : Text) → rstrip_space (s ++ b'\'' ∷ []) ≡ s ++ b'\'' ∷ []
unfolding rstrip_space strip_after is_space
rstrip_space-append [] = refl
rstrip_space-append (c ∷ []) = refl
rstrip_space-append (c ∷ d ∷ s) = rw (rstrip_space-append (d ∷ s)) refl

print_fields-Closed :
    (field : Text × Text) (fields : Fields) → Closed (print_fields (field ∷ fields))
unfolding print_fields Closed print_field
print_fields-Closed (key, value) [] = (
  key ++ (b'=' ∷ b'\'' ∷ escape_quotes value),
  sym (append_assoc key (b'=' ∷ b'\'' ∷ escape_quotes value) (b'\'' ∷ [])),
)
print_fields-Closed field (other ∷ fields) =
    let (init, e) = print_fields-Closed other fields in
    (
      print_field field ++ b' ' ∷ init,
      ap (λ s. print_field field ++ b' ' ∷ s) e
          ∙ sym (append_assoc (print_field field) (b' ' ∷ init) (b'\'' ∷ [])),
    )

lstrip_space-print_field :
    (key value rest : Text)
    → StartsPlain key
    → lstrip_space (print_field (key, value) ++ rest) ≡ print_field (key, value) ++ rest
unfolding lstrip_space print_field StartsPlain is_space
lstrip_space-print_field [] value rest h = refl
lstrip_space-print_field (c ∷ key) value rest h = rw h refl

rstrip_space-Closed : (s : Text) → Closed s → rstrip_space s ≡ s
unfolding Closed
rstrip_space-Closed s (init, e) = rw e (rstrip_space-append init)

-- What is left after a field: the blank before the next one.
tail_of : Fields → Text
unfolding print_fields
tail_of [] = []
tail_of (field ∷ fields) = b' ' ∷ print_fields (field ∷ fields)

print_fields-tail_of :
    (field : Text × Text) (fields : Fields)
    → print_fields (field ∷ fields) ≡ print_field field ++ tail_of fields
unfolding print_fields tail_of
print_fields-tail_of field [] = sym (append-nil (print_field field))
print_fields-tail_of field (other ∷ fields) = refl

strip-print_fields :
    (field : Text × Text) (fields : Fields)
    → IsPrintable field
    → strip (print_fields (field ∷ fields)) ≡ print_fields (field ∷ fields)
unfolding strip
strip-print_fields (key, value) fields h =
    let plain : StartsPlain key = unfold IsPrintable in h.1 in
    let joined = print_fields-tail_of (key, value) fields in
    ap (λ s. rstrip_space (lstrip_space s)) joined
    ∙ ap rstrip_space (lstrip_space-print_field key value (tail_of fields) plain ∙ sym joined)
    ∙ rstrip_space-Closed (print_fields ((key, value) ∷ fields))
        (print_fields-Closed (key, value) fields)

strip-tail_of :
    (fields : Fields) → All IsPrintable fields → strip (tail_of fields) ≡ print_fields fields
unfolding strip tail_of lstrip_space is_space print_fields
strip-tail_of [] h = unfold rstrip_space in refl
strip-tail_of (field ∷ fields) h = strip-print_fields field fields h.0

set_field-append :
    (field : Text × Text) (fields : Fields)
    → All (λ other. Differs other field) fields
    → set_field field.0 field.1 fields ≡ fields ++ field ∷ []
unfolding set_field
set_field-append field [] h = refl
set_field-append field (other ∷ fields) h = rw h.0 (rw (set_field-append field fields h.1) refl)

parse_stripped-some :
    (loop : Text → Fields → ParsedFields) (fields : Fields) (s : Text) {next : Text × Text × Text}
    → next_field s ≡ some next
    → parse_stripped loop fields s ≡ then_parse loop fields (some next)
unfolding next_field split_key
parse_stripped-some loop fields [] h = cc
parse_stripped-some loop fields (c ∷ s) h = ap (then_parse loop fields) h

parse_loop-strip :
    (fuel : ℕ) (s t : Text) (fields : Fields)
    → strip s ≡ strip t
    → parse_loop fuel s fields ≡ parse_loop fuel t fields
unfolding parse_loop
parse_loop-strip zero s t fields h = refl
parse_loop-strip (suc fuel) s t fields h = ap (parse_stripped (parse_loop fuel) fields) h

-- Every field so far has another key than those to come.
Apart : Fields → Fields → Type 0
Apart done fields = All (λ field. All (Differs field) fields) done

Apart-append :
    (field : Text × Text) (done fields : Fields)
    → Apart done (field ∷ fields)
    → All (Differs field) fields
    → Apart (done ++ field ∷ []) fields
unfolding Apart
Apart-append field done fields h k =
    All-append _ done (field ∷ []) (All-map done (λ other d. d.1) h) (k, tt)

parse_loop-tail_of :
    (fields : Fields) (fuel : ℕ) (done : Fields)
    → length fields < fuel
    → All IsPrintable fields
    → IsDict fields
    → Apart done fields
    → parse_loop fuel (tail_of fields) done ≡ parsed (done ++ fields)
unfolding parse_loop print_fields Apart IsDict
parse_loop-tail_of fields zero done l p d a = ground (arith, l)
parse_loop-tail_of [] (suc fuel) done l p d a =
    ap (parse_stripped (parse_loop fuel) done) (strip-tail_of [] p)
    ∙ ap parsed (sym (append-nil done))
parse_loop-tail_of (field ∷ fields) (suc fuel) done l p d a =
    ap (parse_stripped (parse_loop fuel) done) (strip-tail_of (field ∷ fields) p)
    ∙ parse_stripped-some (parse_loop fuel) done (print_fields (field ∷ fields)) (
        ap next_field (print_fields-tail_of field fields)
        ∙ next_field-print_field field (tail_of fields) p.0)
    ∙ ap (parse_loop fuel (tail_of fields))
        (set_field-append field done (All-map done (λ other r. r.0) a))
    ∙ parse_loop-tail_of fields fuel (done ++ field ∷ []) (omega (arith, l)) p.1 d.1
        (Apart-append field done fields a d.0)
    ∙ ap parsed (append_assoc done (field ∷ []) fields)

length-print_fields : (fields : Fields) → length fields ≤ length (print_fields fields)
unfolding print_fields print_field
length-print_fields [] = omega arith
length-print_fields ((key, value) ∷ []) =
    omega (arith, length-append key (b'=' ∷ b'\'' ∷ (escape_quotes value ++ b'\'' ∷ [])))
length-print_fields (field ∷ other ∷ fields) = omega (
  arith,
  length-print_fields (other ∷ fields),
  length-append (print_field field) (b' ' ∷ print_fields (other ∷ fields)),
)

strip-print :
    (fields : Fields) → All IsPrintable fields → strip (print_fields fields) ≡ print_fields fields
strip-print [] h = unfold strip print_fields lstrip_space rstrip_space in refl
strip-print (field ∷ fields) h = strip-print_fields field fields h.0

-- A connection string that was made of fields with different keys is parsed into these fields, in the
-- order of their keys, when no key has an equals sign or begins with white space and no value has a
-- backslash.
pub parse-create_connection_string :
    (connection_info : Fields)
    → All IsPrintable connection_info
    → IsDict connection_info
    → parse_connection_string_libpq (create_connection_string connection_info)
      ≡ parsed (sort_fields connection_info)
unfolding parse_connection_string_libpq create_connection_string
parse-create_connection_string connection_info p d =
    let fields = sort_fields connection_info in
    let printable = sort_fields-All IsPrintable connection_info p in
    let fuel = length (print_fields fields) + 1 in
    parse_loop-strip fuel (print_fields fields) (tail_of fields) []
      (strip-print fields printable ∙ sym (strip-tail_of fields printable))
    ∙ parse_loop-tail_of fields fuel [] (omega (arith, length-print_fields fields)) printable
        (sort_fields-IsDict connection_info d) (unfold Apart in tt)
