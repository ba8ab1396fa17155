-- ===== src/Tests/Connection.antt =====
-- Concrete inputs for the theorems about pghoard/pgutil.py.
use pghoard.Base.{All, [], codes, refl, text_eq, ◌∷◌, ◌≡◌, ◌≢◌}
use pghoard.Connection.{
  out_of_fuel, is_space, Fields, parsed, sort_fields, create_connection_string,
  parse_connection_string_libpq,
}
use pghoard.Connection.Ending.{parse_connection_string_libpq_ends}
use pghoard.Connection.Sorted.{IsDict}
use pghoard.Connection.RoundTrip.{IsPrintable, parse-create_connection_string}

-- A password with a quote and a blank.
abbrev replication_user : Fields
replication_user =
    (codes "user", codes "hoard") ∷ (codes "password", codes "it's 1") ∷ (codes "dbname", []) ∷ []

replication_user-IsPrintable : All IsPrintable replication_user
unfolding IsPrintable is_space
replication_user-IsPrintable = (
  ((refl, (refl, (refl, (refl, tt)))), refl, (refl, (refl, (refl, (refl, (refl, tt)))))),
  (
    (
      (refl, (refl, (refl, (refl, (refl, (refl, (refl, (refl, tt)))))))),
      refl,
      (refl, (refl, (refl, (refl, (refl, (refl, tt)))))),
    ),
    (((refl, (refl, (refl, (refl, (refl, (refl, tt)))))), refl, tt), tt),
  ),
)

replication_user-IsDict : IsDict replication_user
unfolding IsDict text_eq
replication_user-IsDict = ((refl, (refl, tt)), ((refl, tt), (tt, tt)))

parse-create_connection_string_example :
    parse_connection_string_libpq (create_connection_string replication_user)
    ≡ parsed (sort_fields replication_user)
parse-create_connection_string_example =
    parse-create_connection_string replication_user replication_user-IsPrintable
      replication_user-IsDict

-- A backslash is not escaped, and is lost.
lost_backslash :
    parse_connection_string_libpq (create_connection_string ((codes "password", codes "a\\b") ∷ []))
    ≡ parsed ((codes "password", codes "ab") ∷ [])
unfolding parse_connection_string_libpq create_connection_string
lost_backslash = refl

-- A quote that does not end.
parse_connection_string_libpq_ends_example :
    parse_connection_string_libpq (codes "user='a") ≢ out_of_fuel
parse_connection_string_libpq_ends_example = parse_connection_string_libpq_ends (codes "user='a")
