-- ===== src/Base/Errors.antt =====
-- Python's exceptions as values: the classes that the modelled code raises or catches.
use mathlib.Core.Path.{◌≡◌, refl}
use mathlib.Core.Bool.{Bool}
use mathlib.Core.Option.{Option, none, some}
use pghoard.Base.Tests.{if◌then◌else◌}

pub data Error : Type 0 where
  value_error key_error type_error index_error os_error assertion_error : Error
  lsn_mismatch_error wal_blob_length_error : Error
  not_found_from_storage other_error : Error

pub data Result {ℓ} (A : Type ℓ) : Type ℓ where
  ok : A → Result A
  raise : Error → Result A

module _ {ℓ κ} {A : Type ℓ} {B : Type κ} where
  infixl 5 ◌>>=◌
  -- What follows runs on a result and is skipped by an exception.
  abbrev pub ◌>>=◌ : Result A → (A → Result B) → Result B
  raise error >>= next = raise error
  ok a >>= next = next a

  -- A successful sequence was successful at its first step.
  pub >>=-eq-ok :
      (first : Result A) (next : A → Result B) {b : B}
      → (first >>= next) ≡ ok b
      → (a : A) × (first ≡ ok a) × (next a ≡ ok b)
  >>=-eq-ok (raise error) next h = cc
  >>=-eq-ok (ok a) next h = (a, refl, h)

module _ {ℓ} {A : Type ℓ} where
  infixl 5 ◌>>◌
  abbrev pub ◌>>◌ : Result (Unit {0}) → Result A → Result A
  first >> rest = first >>= λ _. rest

  -- A missing value raises.
  abbrev pub or_raise : Option A → Error → Result A
  or_raise (some a) error = ok a
  or_raise none error = raise error

  pub ok-injective : {a b : A} → ok a ≡ ok b → a ≡ b
  ok-injective h = cc

-- `if not test: raise error`
abbrev pub guard : Bool → Error → Result (Unit {0})
guard test error = if test then ok tt else raise error

-- Two steps whose results are combined.
pub combine-eq-ok {ℓ κ μ} :
    {A : Type ℓ} {B : Type κ} {C : Type μ} (first : Result A) (second : Result B) (f : A → B → C)
    {c : C}
    → (first >>= λ a. second >>= λ b. ok (f a b)) ≡ ok c
    → (a : A) × (b : B) × (first ≡ ok a) × (second ≡ ok b) × (f a b ≡ c)
combine-eq-ok (raise error) second f h = cc
combine-eq-ok (ok a) (raise error) f h = cc
combine-eq-ok (ok a) (ok b) f h = (a, b, refl, refl, ok-injective h)
