-- ===== src/Versions.antt =====
-- `check_pg_versions_ok` of pghoard/pghoard.py: whether the version of a server is one that a command
-- of the client can work with. A version is a number such as 90605 or 130003; the version of the
-- client that the configuration does not know stands as 0.
use pghoard.Base.{
  Bool, Option, arith, false, if◌then◌else◌, none, some, true, ℕ, ◌/◌, ◌==◌, ◌↔◌, ◌≡◌, ◌≢◌,
}

pub data Alert : Type 0 where
  version_unsupported_error version_mismatch_error : Alert

-- The checks of the two numbers in their order: the result, and the alert file, if one is made.
unfoldable pub check_numbers : ℕ → ℕ → Bool × Option Alert
check_numbers server client =
    if server == 0
    then (false, some version_unsupported_error)
    else if client == 0
    then (false, none)
    else if server / 100 == client / 100
    then (true, none)
    else (false, some version_mismatch_error)

unfoldable pub check_pg_versions_ok : Option ℕ → ℕ → Bool × Option Alert
unfolding check_numbers
check_pg_versions_ok none client = (false, none)
check_pg_versions_ok (some server) client = check_numbers server client

-- What the specification asks of a server's version.
abbrev pub AreCompatible : Option ℕ → ℕ → Type 0
AreCompatible none client = ⊥
AreCompatible (some server) client = (server ≢ 0) × (client ≢ 0) × (server / 100 ≡ client / 100)

check_numbers_lem :
    (server client : ℕ)
    → ((check_numbers server client).0 ≡ true) ↔ AreCompatible (some server) client
unfolding check_numbers
check_numbers_lem server client = ground arith

-- The check passes just when the server's version is known and not zero, the client's is not zero,
-- and both agree but for their last two digits.
pub check_pg_versions_ok_lem :
    (server : Option ℕ) (client : ℕ)
    → ((check_pg_versions_ok server client).0 ≡ true) ↔ AreCompatible server client
unfolding check_pg_versions_ok
check_pg_versions_ok_lem none client = ((λ h. cc), (λ h. absurd h))
check_pg_versions_ok_lem (some server) client = check_numbers_lem server client
