-- ===== src/Tests/Cleanup.antt =====
-- A concrete input for the theorem about the archive cleanup.
use pghoard.Base.{All, List, Option, Text, [], codes, false, none, refl, some, text_lt, ℕ, ◌+◌, ◌∷◌}
use pghoard.Backups.WalSweep.{Deletion, deleted}
use pghoard.Cleanup.{archive_cleanup, basename}
use pghoard.Cleanup.Required.{Precedes, archive_cleanup-Precedes}

abbrev deletes : ℕ → Text → Deletion × ℕ
deletes n key = (deleted, n + 1)

abbrev segments : List (Option Text)
segments = some (codes "00000003") ∷ some (codes "00000002") ∷ []

abbrev objects : List (Text × Option ℕ)
objects = (codes "s/xlog/00000001", some 16) ∷ (codes "s/xlog/00000002", none) ∷ []

archive_cleanup-Precedes_example :
    All (λ key. Precedes (basename key) segments) (codes "s/xlog/00000001" ∷ [])
unfolding archive_cleanup text_lt
archive_cleanup-Precedes_example = archive_cleanup-Precedes deletes false segments objects 0 refl
