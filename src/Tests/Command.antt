-- ===== src/Tests/Command.antt =====
-- A concrete input for the theorem about the exit codes.
use pghoard.Base.{codes, if◌then◌else◌, ℕ, ◌<◌, ◌==◌, ◌≡◌, ◌⊎◌}
use pghoard.Command.{answered, disconnected, Reply, nothing, main_restore}
use pghoard.Command.Codes.{SaysNotFound, main_restore_lem}

-- The first connection fails, and the second one is answered by 404.
abbrev replies : ℕ → Reply
replies n = if n == 0 then disconnected else answered 404

main_restore_lem_example :
    (main_restore (codes "000000010000000000000002") (codes "p") nothing replies ≡ 0)
    ⊎ (125 < main_restore (codes "000000010000000000000002") (codes "p") nothing replies)
    ⊎ SaysNotFound replies
main_restore_lem_example =
    main_restore_lem (codes "000000010000000000000002") (codes "p") nothing replies
