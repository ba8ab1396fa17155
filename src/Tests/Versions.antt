-- ===== src/Tests/Versions.antt =====
-- A concrete input for the theorem about the check of versions.
use pghoard.Base.{false, refl, some, ◌≡◌}
use pghoard.Versions.{check_pg_versions_ok, version_mismatch_error}

mismatch : check_pg_versions_ok (some 130003) 120007 ≡ (false, some version_mismatch_error)
unfolding check_pg_versions_ok
mismatch = refl
