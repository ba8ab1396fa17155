-- ===== src/Wal/Hex/Fixed.antt =====
-- The digits of a number at a fixed width: `int(text, 16)` and `{:08X}`.
use pghoard.Base.{
  Bool-cases, List, Option-cases, [], ap, arith, false, inl, inr, length, length-append, ltb,
  ltb→lt, lt→ltb, refl, replicate, some, suc, true, zero, ℕ, ◌%◌, ◌*◌, ◌++◌, ◌+◌, ◌-◌, ◌/◌, ◌<◌,
  ◌^◌, ◌∙◌, ◌∷◌, ◌≡◌,
}
use mathlib.Core.List.{append-nil}
use pghoard.Wal.Hex.{int16, digit_value, read_hex, hex_digit, hex_digits, upper_hex, hex08}
use native.Mathlib.Nat.{pow-suc}
use mathlib.Core.List.{append_assoc}

-- The last `k` hexadecimal digits of a number.
unfoldable pub fixed : ℕ → ℕ → List ℕ
fixed zero n = []
fixed (suc k) n = fixed k (n / 16) ++ hex_digit (n % 16) ∷ []

digit_value-hex_digit : (d : ℕ) → d < 16 → digit_value (hex_digit d) ≡ some d
unfolding digit_value hex_digit
digit_value-hex_digit d h = ground arith

read_hex_last :
    (acc v : ℕ) (xs : List ℕ) (d : ℕ)
    → d < 16
    → read_hex acc xs ≡ some v
    → read_hex acc (xs ++ hex_digit d ∷ []) ≡ some (v * 16 + d)
unfolding read_hex
read_hex_last acc v [] d h e = ground (arith, digit_value-hex_digit d)
read_hex_last acc v (x ∷ xs) d h e = elim (Option-cases (digit_value x)) [
  | inl bad ↦ absurd (ground arith)
  | inr (y, good) ↦ rw (good, read_hex) (read_hex_last (acc * 16 + y) v xs d h (ground arith))
]

pub pow_step : (a k : ℕ) → a * 16 ^ suc k ≡ a * 16 ^ k * 16
pow_step a k = simp pow-suc (omega arith)

-- Reading `k` digits after others shifts the others by `k` places.
pub read_hex-fixed : (k acc n : ℕ) → n < 16 ^ k → read_hex acc (fixed k n) ≡ some (acc * 16 ^ k + n)
unfolding fixed
read_hex-fixed zero acc n h = unfold read_hex in ap some (omega arith)
read_hex-fixed (suc k) acc n h =
    let low : n / 16 < 16 ^ k = omega (arith, pow_step 1 k) in
    read_hex_last acc (acc * 16 ^ k + n / 16) (fixed k (n / 16)) (n % 16) (omega arith)
      (read_hex-fixed k acc (n / 16) low)
    ∙ ap some (omega (arith, pow_step acc k))

pub length-fixed : (k n : ℕ) → length (fixed k n) ≡ k
unfolding fixed
length-fixed zero n = refl
length-fixed (suc k) n =
    omega (
      arith,
      length-append {0} (fixed k (n / 16)) (hex_digit (n % 16) ∷ []),
      length-fixed k (n / 16),
    )

replicate_last {ℓ} : {A : Type ℓ} (n : ℕ) (a : A) → replicate n a ++ a ∷ [] ≡ a ∷ replicate n a
replicate_last zero a = refl
replicate_last (suc n) a = ap (◌∷◌ a) (replicate_last n a)

fixed-zero : (k : ℕ) → fixed k 0 ≡ replicate k 48
unfolding fixed hex_digit
fixed-zero zero = refl
fixed-zero (suc k) = rw (fixed-zero k) (replicate_last k 48)

short_digits :
    (k f n : ℕ)
    → n < 16
    → replicate (suc k - length (hex_digits (suc f) n)) 48 ++ hex_digits (suc f) n ≡ fixed (suc k) n
unfolding hex_digits fixed
short_digits k f n h =
    let one : ltb n 16 ≡ true = lt→ltb n 16 h in
    let high : n / 16 ≡ 0 = omega arith in
    let low : n % 16 ≡ n = omega arith in
    let width : suc k - 1 ≡ k = omega arith in rw (one, high, low, width, fixed-zero k) refl

long_digits :
    (k f n : ℕ)
    → ltb n 16 ≡ false
    → replicate (suc k - length (hex_digits f (n / 16))) 48 ++ hex_digits f (n / 16)
      ≡ fixed (suc k) (n / 16)
    → replicate (suc (suc k) - length (hex_digits (suc f) n)) 48 ++ hex_digits (suc f) n
      ≡ fixed (suc (suc k)) n
unfolding hex_digits fixed
long_digits k f n more deeper =
    let high = hex_digits f (n / 16) in
    let low = hex_digit (n % 16) ∷ [] in
    let width : suc (suc k) - length (high ++ low) ≡ suc k - length high =
      omega (arith, length-append {0} high low) in
    rw (more, width, ← append_assoc) (ap (λ ds. ds ++ low) deeper)

-- `{:08X}` writes the `k` last digits of a number that fits in them.
pub pad-fixed :
    (k f n : ℕ)
    → n < f
    → n < 16 ^ suc k
    → replicate (suc k - length (hex_digits f n)) 48 ++ hex_digits f n ≡ fixed (suc k) n
pad-fixed k zero n h b = absurd (omega arith)
pad-fixed zero (suc f) n h b = short_digits zero f n b
pad-fixed (suc k) (suc f) n h b = elim (Bool-cases (ltb n 16)) [
  | inl one ↦ short_digits (suc k) f n (ltb→lt n 16 one)
  | inr more ↦
      long_digits k f n more
        (pad-fixed k f (n / 16) (ground arith) (omega (arith, pow_step 1 (suc k))))
]

pub hex08-fixed : (n : ℕ) → n < 2 ^ 32 → hex08 n ≡ fixed 8 n
unfolding hex08 upper_hex
hex08-fixed n h = pad-fixed 7 (suc n) n (omega arith) h

-- The digits from the left.
pub fixed_first :
    (k d n : ℕ) → d < 16 → n < 16 ^ k → fixed (suc k) (d * 16 ^ k + n) ≡ hex_digit d ∷ fixed k n
unfolding fixed
fixed_first zero d n h b = let only : (d * 16 ^ 0 + n) % 16 ≡ d = omega arith in rw only refl
fixed_first (suc k) d n h b =
    let high : (d * 16 ^ suc k + n) / 16 ≡ d * 16 ^ k + n / 16 = omega (arith, pow_step d k) in
    let low : (d * 16 ^ suc k + n) % 16 ≡ n % 16 = omega (arith, pow_step d k) in
    rw (high, low)
      (ap (λ ds. ds ++ hex_digit (n % 16) ∷ [])
        (fixed_first k d (n / 16) h (omega (arith, pow_step 1 k))))

-- `k + j`, which computes at a numeral `k`.
unfoldable pub places : ℕ → ℕ → ℕ
places zero j = j
places (suc k) j = suc (places k j)

-- The digits of two numbers side by side.
pub fixed-append :
    (k j a b : ℕ) → b < 16 ^ k → fixed (places k j) (a * 16 ^ k + b) ≡ fixed j a ++ fixed k b
unfolding fixed places
fixed-append zero j a b h =
    let same : a * 16 ^ 0 + b ≡ a = omega arith in rw (same, append-nil) refl
fixed-append (suc k) j a b h =
    let high : (a * 16 ^ suc k + b) / 16 ≡ a * 16 ^ k + b / 16 = omega (arith, pow_step a k) in
    let low : (a * 16 ^ suc k + b) % 16 ≡ b % 16 = omega (arith, pow_step a k) in
    rw (high, low, ← append_assoc)
      (ap (λ ds. ds ++ hex_digit (b % 16) ∷ [])
        (fixed-append k j a (b / 16) (omega (arith, pow_step 1 k))))

pub read_hex-append :
    (acc v : ℕ) (xs ys : List ℕ)
    → read_hex acc xs ≡ some v
    → read_hex acc (xs ++ ys) ≡ read_hex v ys
unfolding read_hex
read_hex-append acc v [] ys e = ground arith
read_hex-append acc v (x ∷ xs) ys e = elim (Option-cases (digit_value x)) [
  | inl bad ↦ absurd (ground arith)
  | inr (y, good) ↦ rw (good, read_hex) (read_hex-append (acc * 16 + y) v xs ys (ground arith))
]

pub int16_of_read : (s : List ℕ) (v : ℕ) → 0 < length s → read_hex 0 s ≡ some v → int16 s ≡ some v
unfolding int16
int16_of_read [] v h e = absurd (omega arith)
int16_of_read (c ∷ cs) v h e = e
