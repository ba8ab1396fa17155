-- ===== src/Base/Sets.antt =====
-- Python sets of numbers as lists.
use Prim.Native.Nat.{ℕ}
use mathlib.Core.Bool.{Bool, false, not, ◌&&◌, ◌||◌}
use mathlib.Core.List.{List, [], ◌∷◌}
use mathlib.Core.Path.{◌≡◌, refl}
use native.Mathlib.Omega.{arith}
use pghoard.Base.Tests.{◌==◌, if◌then◌else◌}

unfoldable pub member : ℕ → List ℕ → Bool
member i [] = false
member i (j ∷ js) = let rest = member i js in i == j || rest

-- `set.add`
unfoldable pub with_member : ℕ → List ℕ → List ℕ
unfolding member
with_member k ks = if member k ks then ks else k ∷ ks

-- `set.remove` of a member, and `set.discard`
unfoldable pub without : ℕ → List ℕ → List ℕ
without k [] = []
without k (j ∷ js) = let rest = without k js in if k == j then rest else j ∷ rest

pub member-without :
    (i k : ℕ) (ks : List ℕ) → member i (without k ks) ≡ (member i ks && not (i == k))
unfolding member without
member-without i k [] = refl
member-without i k (j ∷ js) = ground (arith, member-without i k js)

pub member-with_member :
    (i k : ℕ) (ks : List ℕ) → member i (with_member k ks) ≡ (i == k || member i ks)
unfolding member with_member
member-with_member i k [] = refl
member-with_member i k (j ∷ js) = ground (arith)
