-- ===== src/Command/Codes.antt =====
-- The exit codes of pghoard/postgres_command.py.
use pghoard.Base.{
  Bool, Bool-cases, Text, [], ap, arith, false, inl, inr, not, refl, suc, true, zero, ℕ, ◌&&◌, ◌+◌,
  ◌<◌, ◌==◌, ◌||◌, ◌∙◌, ◌∷◌, ◌≡◌, ◌≤◌, ◌⊎◌,
}
use pghoard.Command.{
  Reply, answered, disconnected, broken, Ended, pgc_error, restore_status, restore_reply, attempts,
  Prefetched, nothing, renamed, not_renamed, after_prefetch, restore_command, exit_code,
  main_restore, exit_abort,
}

-- One of three replies is a 404.
abbrev pub SaysNotFound : (ℕ → Reply) → Type 0
SaysNotFound replies = (n : ℕ) × (n ≤ 2) × (replies n ≡ answered 404)

-- An exit code that PostgreSQL does not take for a missing file, or a confirmed one.
IsHonest : (ℕ → Reply) → Ended → Type 0
IsHonest replies e =
    (exit_code exit_abort e ≡ 0) ⊎ (125 < exit_code exit_abort e) ⊎ SaysNotFound replies

restore_status-IsHonest :
    (replies : ℕ → Reply) (is_get : Bool) (n status : ℕ)
    → n ≤ 2
    → replies n ≡ answered status
    → IsHonest replies (restore_status is_get status)
unfolding restore_status IsHonest exit_code
restore_status-IsHonest replies is_get n status le e =
    elim (Bool-cases ((is_get && status == 201) || (not is_get && status == 200))) [
      | inl y ↦ rw y (inl refl)
      | inr y ↦ elim (Bool-cases (status == 404)) [
        | inl z ↦ let same : status ≡ 404 = ground arith in inr (inr (n, le, e ∙ ap answered same))
        | inr z ↦ rw y (rw z (inr (inl (omega arith))))
      ]
    ]

restore_reply-IsHonest :
    (replies : ℕ → Reply) (is_get : Bool) (again : Ended) (n : ℕ) (reply : Reply)
    → n ≤ 2
    → replies n ≡ reply
    → IsHonest replies again
    → IsHonest replies (restore_reply is_get again reply)
unfolding restore_reply
restore_reply-IsHonest replies is_get again n (answered status) le e h =
    restore_status-IsHonest replies is_get n status le e
restore_reply-IsHonest replies is_get again n disconnected le e h = h
restore_reply-IsHonest replies is_get again n broken le e h =
    unfold IsHonest exit_code in inr (inl (omega arith))

attempts-IsHonest :
    (replies : ℕ → Reply) (is_get : Bool) (retries n : ℕ)
    → n + retries ≤ 2
    → IsHonest replies (attempts is_get replies n retries)
unfolding attempts
attempts-IsHonest replies is_get zero n le =
    restore_reply-IsHonest replies is_get (pgc_error exit_abort) n (replies n) (omega arith) refl
      (unfold IsHonest exit_code in inr (inl (omega arith)))
attempts-IsHonest replies is_get (suc retries) n le =
    restore_reply-IsHonest replies is_get (attempts is_get replies (n + 1) retries) n (replies n)
      (omega arith) refl (attempts-IsHonest replies is_get retries (n + 1) (omega arith))

after_prefetch-IsHonest :
    (replies : ℕ → Reply) (p : Prefetched) → IsHonest replies (after_prefetch p replies)
unfolding after_prefetch
after_prefetch-IsHonest replies nothing = attempts-IsHonest replies true 2 0 (omega arith)
after_prefetch-IsHonest replies renamed = unfold IsHonest exit_code in inl refl
after_prefetch-IsHonest replies not_renamed = unfold IsHonest exit_code in inr (inl (omega arith))

restore_command-IsHonest :
    (xlog output : Text) (prefetched : Prefetched) (replies : ℕ → Reply)
    → IsHonest replies (restore_command xlog output prefetched replies)
unfolding restore_command
restore_command-IsHonest xlog [] prefetched replies =
    attempts-IsHonest replies false 2 0 (omega arith)
restore_command-IsHonest xlog (c ∷ output) prefetched replies = after_prefetch-IsHonest replies _

-- The command that restores a file exits with 0, with a code above 125, on which PostgreSQL stops, or
-- with another one, which PostgreSQL takes for a missing file; and the last only when one of its
-- three requests was answered by 404.
pub main_restore_lem :
    (xlog output : Text) (prefetched : Prefetched) (replies : ℕ → Reply)
    → (main_restore xlog output prefetched replies ≡ 0)
      ⊎ (125 < main_restore xlog output prefetched replies)
      ⊎ SaysNotFound replies
unfolding main_restore
main_restore_lem xlog output prefetched replies =
    unfold IsHonest in restore_command-IsHonest xlog output prefetched replies
