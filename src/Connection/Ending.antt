-- ===== src/Connection/Ending.antt =====
-- `Connection.antt`: the loop of `parse_connection_string_libpq`.
use pghoard.Base.{
  Bool, Bool-cases, Option, Text, [], arith, false, inl, inr, length, none, some, suc, true, zero,
  ℕ, ◌+◌, ◌<◌, ◌==◌, ◌∷◌, ◌≢◌, ◌≤◌,
}
use pghoard.Connection.{
  Fields, is_space, lstrip_space, strip_after, rstrip_space, strip, before, split_key, quoted_value,
  word, two_parts, unquoted, value_of, set_field, ParsedFields, out_of_fuel, with_value, with_key,
  next_field, then_parse, parse_stripped, parse_loop, parse_connection_string_libpq,
}

length-lstrip_space : (s : Text) → length (lstrip_space s) ≤ length s
unfolding lstrip_space
length-lstrip_space [] = omega arith
length-lstrip_space (c ∷ s) = ground (arith, length-lstrip_space s)

length-strip_after : (c : ℕ) (s : Text) → length (strip_after c s) ≤ suc (length s)
unfolding strip_after
length-strip_after c [] = ground arith
length-strip_after c (d ∷ s) = omega arith

length-rstrip_space : (s : Text) → length (rstrip_space s) ≤ length s
unfolding rstrip_space
length-rstrip_space [] = omega arith
length-rstrip_space (c ∷ s) =
    omega (arith, length-rstrip_space s, length-strip_after c (rstrip_space s))

length-strip : (s : Text) → length (strip s) ≤ length s
unfolding strip
length-strip s = omega (arith, length-lstrip_space s, length-rstrip_space (lstrip_space s))

-- What is left, if anything, has fewer code points.
Leaves : ℕ → Option (Text × Text) → Type 0
Leaves n none = Unit
Leaves n (some (first, rest)) = length rest < n

Leaves-before : (c n m : ℕ) (o : Option (Text × Text)) → Leaves n o → n ≤ m → Leaves m (before c o)
unfolding Leaves
Leaves-before c n m none h k = tt
Leaves-before c n m (some (first, rest)) h k = omega (arith, h, k)

Leaves-more : (n m : ℕ) (o : Option (Text × Text)) → Leaves n o → n ≤ m → Leaves m o
unfolding Leaves
Leaves-more n m none h k = tt
Leaves-more n m (some (first, rest)) h k = omega (arith, h, k)

split_key-Leaves : (s : Text) → Leaves (length s) (split_key s)
unfolding split_key Leaves
split_key-Leaves [] = tt
split_key-Leaves (c ∷ s) = elim (Bool-cases (c == b'=')) [
  | inl e ↦ rw e (omega arith)
  | inr e ↦
      rw e (
        Leaves-before c (length s) (suc (length s)) (split_key s) (split_key-Leaves s)
          (omega arith))
]

quoted_value-Leaves : (asis : Bool) (s : Text) → Leaves (length s) (quoted_value asis s)
unfolding quoted_value Leaves
quoted_value-Leaves asis [] = tt
quoted_value-Leaves true (c ∷ s) =
    Leaves-before c (length s) (suc (length s)) (quoted_value false s) (quoted_value-Leaves false s)
      (omega arith)
quoted_value-Leaves false (c ∷ s) = elim (Bool-cases (c == b'\'')) [
  | inl e ↦ rw e (omega arith)
  | inr e ↦ elim (Bool-cases (c == b'\\')) [
    | inl e' ↦ rw e (
        rw e' (
          Leaves-more (length s) (suc (length s)) (quoted_value true s) (quoted_value-Leaves true s)
            (omega arith)))
    | inr e' ↦ rw e (
        rw e' (
          Leaves-before c (length s) (suc (length s)) (quoted_value false s)
            (quoted_value-Leaves false s) (omega arith)))
  ]
]

length-word : (s : Text) → length (word s).1 ≤ length s
unfolding word
length-word [] = omega arith
length-word (c ∷ s) = elim (Bool-cases (is_space c)) [
  | inl e ↦ rw e (omega arith)
  | inr e ↦ rw e (omega (arith, length-word s))
]

length-two_parts : (rem first second : Text) → length (two_parts rem first second).1 ≤ length second
unfolding two_parts
length-two_parts rem first [] = omega arith
length-two_parts rem first (c ∷ second) = omega arith

length-unquoted : (s : Text) → length (unquoted s).1 ≤ length s
unfolding unquoted
length-unquoted s =
    let parts = word (lstrip_space s) in
    omega (
      arith,
      length-lstrip_space s,
      length-word (lstrip_space s),
      length-lstrip_space parts.1,
      length-two_parts s parts.0 (lstrip_space parts.1),
    )

value_of-Leaves : (s : Text) → Leaves (suc (length s)) (value_of s)
unfolding value_of Leaves
value_of-Leaves [] = omega (arith, length-unquoted [])
value_of-Leaves (c ∷ s) = elim (Bool-cases (c == b'\'')) [
  | inl e ↦ rw e (
      Leaves-more (length s) (suc (suc (length s))) (quoted_value false s)
        (quoted_value-Leaves false s) (omega arith))
  | inr e ↦ rw e (omega (arith, length-unquoted (c ∷ s)))
]

-- The loop from a text on, with enough fuel for it, does not run out of it.
Ends : ℕ → (Text → Fields → ParsedFields) → Type 0
Ends n loop = (s : Text) (fields : Fields) → length s < n → loop s fields ≢ out_of_fuel

then_parse-Ends :
    (n : ℕ) (loop : Text → Fields → ParsedFields) (fields : Fields) (key : Text)
    (o : Option (Text × Text))
    → Ends n loop
    → Leaves n o
    → then_parse loop fields (with_value key o) ≢ out_of_fuel
unfolding Ends Leaves with_key
then_parse-Ends n loop fields key none h k e = cc
then_parse-Ends n loop fields key (some (value, rest)) h k e =
    h rest (set_field key value fields) k e

with_key-Ends :
    (n : ℕ) (loop : Text → Fields → ParsedFields) (fields : Fields) (o : Option (Text × Text))
    → Ends n loop
    → Leaves n o
    → then_parse loop fields (with_key o) ≢ out_of_fuel
unfolding with_key Leaves
with_key-Ends n loop fields none h k = λ e. cc
with_key-Ends n loop fields (some (key, rem)) h k =
    then_parse-Ends n loop fields key (value_of rem) h
      (Leaves-more (suc (length rem)) n (value_of rem) (value_of-Leaves rem) (omega (arith, k)))

parse_stripped-Ends :
    (n : ℕ) (loop : Text → Fields → ParsedFields) (fields : Fields) (s : Text)
    → Ends n loop
    → length s ≤ n
    → parse_stripped loop fields s ≢ out_of_fuel
unfolding next_field
parse_stripped-Ends n loop fields [] h k = λ e. cc
parse_stripped-Ends n loop fields (c ∷ s) h k =
    with_key-Ends n loop fields (split_key (c ∷ s)) h
      (Leaves-more (length (c ∷ s)) n (split_key (c ∷ s)) (split_key-Leaves (c ∷ s)) k)

parse_loop-Ends : (fuel : ℕ) → Ends fuel (parse_loop fuel)
unfolding Ends parse_loop
parse_loop-Ends zero s fields l = λ e. ground (arith, l)
parse_loop-Ends (suc fuel) s fields l =
    parse_stripped-Ends fuel (parse_loop fuel) fields (strip s) (parse_loop-Ends fuel)
      (omega (arith, l, length-strip s))

-- The parser of a connection string returns fields or an error for every text: a round for each of
-- its code points is enough, since each field has an equals sign.
pub parse_connection_string_libpq_ends :
    (connection_string : Text) → parse_connection_string_libpq connection_string ≢ out_of_fuel
unfolding parse_connection_string_libpq Ends
parse_connection_string_libpq_ends connection_string =
    parse_loop-Ends (length connection_string + 1) connection_string [] (omega arith)
