-- ===== src/Connection.antt =====
-- pghoard/pgutil.py: `create_connection_string` and `parse_connection_string_libpq`. The fields are an
-- association list in the order of the dictionary, their values texts; the URL form is not modelled.
pub mod Sorted
pub mod RoundTrip
pub mod Ending
use pghoard.Base.{
  Bool, List, Option, Text, [], false, if◌then◌else◌, leb, length, none, some, suc, text_eq,
  text_lt, true, zero, ℕ, ◌&&◌, ◌++◌, ◌+◌, ◌==◌, ◌||◌, ◌∷◌,
}

abbrev pub Fields : Type 0
Fields = List (Text × Text)

-- `str(v).replace("'", "\\'")`
unfoldable pub escape_quotes : Text → Text
escape_quotes [] = []
escape_quotes (c ∷ s) =
    let rest = escape_quotes s in if c == b'\'' then b'\\' ∷ b'\'' ∷ rest else c ∷ rest

unfoldable pub print_field : Text × Text → Text
unfolding escape_quotes
print_field (key, value) = key ++ (b'=' ∷ b'\'' ∷ (escape_quotes value ++ b'\'' ∷ []))

-- `" ".join(...)`
unfoldable pub print_fields : Fields → Text
unfolding print_field
print_fields [] = []
print_fields (field ∷ []) = print_field field
print_fields (field ∷ other ∷ fields) = print_field field ++ b' ' ∷ print_fields (other ∷ fields)

-- `sorted(connection_info.items())`; no two items have one key.
unfoldable pub insert_field : Text × Text → Fields → Fields
unfolding text_lt
insert_field field [] = field ∷ []
insert_field field (other ∷ fields) =
    let rest = insert_field field fields in
    if text_lt other.0 field.0 then other ∷ rest else field ∷ other ∷ fields

unfoldable pub sort_fields : Fields → Fields
unfolding insert_field
sort_fields [] = []
sort_fields (field ∷ fields) = insert_field field (sort_fields fields)

unfoldable pub create_connection_string : Fields → Text
unfolding print_fields sort_fields
create_connection_string connection_info = print_fields (sort_fields connection_info)

-- The white space of Python's texts.
unfoldable pub is_space : ℕ → Bool
is_space c =
    (leb 9 c && leb c 13)
    || (leb 28 c && leb c 32)
    || c == 133
    || c == 160
    || c == 5760
    || (leb 8192 c && leb c 8202)
    || c == 8232
    || c == 8233
    || c == 8239
    || c == 8287
    || c == 12288

unfoldable pub lstrip_space : Text → Text
unfolding is_space
lstrip_space [] = []
lstrip_space (c ∷ s) = let rest = lstrip_space s in if is_space c then rest else c ∷ s

-- A code point before what is left of the rest.
strip_after : ℕ → Text → Text
unfolding is_space
strip_after c [] = if is_space c then [] else c ∷ []
strip_after c (d ∷ s) = c ∷ d ∷ s

unfoldable pub rstrip_space : Text → Text
unfolding strip_after
rstrip_space [] = []
rstrip_space (c ∷ s) = strip_after c (rstrip_space s)

-- `str.strip()`
unfoldable pub strip : Text → Text
unfolding lstrip_space rstrip_space
strip s = rstrip_space (lstrip_space s)

abbrev pub before : ℕ → Option (Text × Text) → Option (Text × Text)
before c none = none
before c (some (first, rest)) = some (c ∷ first, rest)

-- `split("=", 1)`, if there is an equals sign
unfoldable pub split_key : Text → Option (Text × Text)
split_key [] = none
split_key (c ∷ s) = let later = split_key s in if c == b'=' then some ([], s) else before c later

-- The loop over a quoted value, from `asis` and the text on; none if the quote does not end.
unfoldable pub quoted_value : Bool → Text → Option (Text × Text)
quoted_value asis [] = none
quoted_value true (c ∷ s) = before c (quoted_value false s)
quoted_value false (c ∷ s) =
    let plain = quoted_value false s in
    let escaped = quoted_value true s in
    if c == b'\'' then some ([], s) else if c == b'\\' then escaped else before c plain

-- Up to the first white space, and from it on.
unfoldable pub word : Text → Text × Text
unfolding is_space
word [] = ([], [])
word (c ∷ s) = let rest = word s in if is_space c then ([], c ∷ s) else (c ∷ rest.0, rest.1)

two_parts : Text → Text → Text → Text × Text
two_parts rem first [] = (rem, [])
two_parts rem first (c ∷ second) = (first, c ∷ second)

-- `rem.split(None, 1)`; without a second part the value is all of `rem`.
unfoldable pub unquoted : Text → Text × Text
unfolding word lstrip_space two_parts
unquoted rem = let parts = word (lstrip_space rem) in two_parts rem parts.0 (lstrip_space parts.1)

unfoldable pub value_of : Text → Option (Text × Text)
unfolding quoted_value unquoted
value_of [] = some (unquoted [])
value_of (c ∷ s) = if c == b'\'' then quoted_value false s else some (unquoted (c ∷ s))

-- `fields[key] = value`
unfoldable pub set_field : Text → Text → Fields → Fields
unfolding text_eq
set_field key value [] = (key, value) ∷ []
set_field key value (field ∷ fields) =
    let rest = set_field key value fields in
    if text_eq field.0 key then (field.0, value) ∷ fields else field ∷ rest

pub data ParsedFields : Type 0 where
  parsed : Fields → ParsedFields
  invalid out_of_fuel : ParsedFields

with_value : Text → Option (Text × Text) → Option (Text × Text × Text)
with_value key none = none
with_value key (some (value, rest)) = some (key, value, rest)

with_key : Option (Text × Text) → Option (Text × Text × Text)
unfolding value_of with_value
with_key none = none
with_key (some (key, rem)) = with_value key (value_of rem)

-- The next key and value, and what is left after them; none for a ValueError.
unfoldable pub next_field : Text → Option (Text × Text × Text)
unfolding split_key with_key
next_field s = with_key (split_key s)

abbrev pub then_parse :
    (Text → Fields → ParsedFields) → Fields → Option (Text × Text × Text) → ParsedFields
then_parse loop fields none = invalid
then_parse loop fields (some (key, value, rest)) = loop rest (set_field key value fields)

-- A stripped text: the end of the loop, or another field.
abbrev pub parse_stripped : (Text → Fields → ParsedFields) → Fields → Text → ParsedFields
parse_stripped loop fields [] = parsed fields
parse_stripped loop fields (c ∷ s) = then_parse loop fields (next_field (c ∷ s))

unfoldable pub parse_loop : ℕ → Text → Fields → ParsedFields
unfolding strip next_field set_field
parse_loop zero s fields = out_of_fuel
parse_loop (suc fuel) s fields = parse_stripped (parse_loop fuel) fields (strip s)

-- Every field takes an equals sign at least.
unfoldable pub parse_connection_string_libpq : Text → ParsedFields
unfolding parse_loop
parse_connection_string_libpq connection_string =
    parse_loop (length connection_string + 1) connection_string []
