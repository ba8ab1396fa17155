-- ===== src/Wal/Hex/Order.antt =====
-- The order of hexadecimal text of one width, by the order of Python strings.
use pghoard.Base.{
  Bool, List, ap, arith, if◌then◌else◌, inl, inr, ltb, refl, suc, sym, text_lt, zero, ℕ, ◌%◌, ◌*◌,
  ◌++◌, ◌+◌, ◌/◌, ◌<◌, ◌==◌, ◌^◌, ◌∷◌, ◌≡◌, ◌≤◌, ◌⊎◌,
}
use mathlib.Core.Path.{subst₂}
use native.Mathlib.Nat.{div-add-mod, mod-lt}
use pghoard.Wal.Hex.{hex_digit}
use pghoard.Wal.Hex.Fixed.{fixed, fixed_first, pow_step}

pow_pos : (k : ℕ) → 0 < 16 ^ k
pow_pos zero = omega arith
pow_pos (suc k) = omega (arith, pow_step 1 k, pow_pos k)

quotient_small : (k n : ℕ) → n < 16 ^ suc k → n / 16 ^ k < 16
quotient_small k n h =
    let P = 16 ^ k in
    let whole = div-add-mod n P in let step = pow_step 1 k in grind (arith, whole, step)

split_digit :
    (k n : ℕ) → n < 16 ^ suc k → (d : ℕ) × (r : ℕ) × (d < 16) × (r < 16 ^ k) × (n ≡ d * 16 ^ k + r)
split_digit k n h = (
  n / 16 ^ k,
  n % 16 ^ k,
  quotient_small k n h,
  mod-lt n (pow_pos k),
  omega (arith, div-add-mod n (16 ^ k)),
)

digit_order :
    (d e : ℕ)
    → d < 16
    → e < 16
    → ((hex_digit d == hex_digit e) ≡ (d == e)) × (ltb (hex_digit d) (hex_digit e) ≡ ltb d e)
unfolding hex_digit
digit_order d e hd he = (ground arith, ground arith)

pub lt_trichotomy : (a b : ℕ) → (a < b) ⊎ ((a ≡ b) ⊎ (b < a))
lt_trichotomy a b = grind arith

pub high_digit_lt : (P d e x y : ℕ) → d < e → x < P → d * P + x < e * P + y
high_digit_lt P d e x y h hx = let step : suc d * P ≤ e * P = grind arith in omega (arith, step)

first_digit :
    (P d e x y : ℕ) (s t : List ℕ) (rest : Bool)
    → d < 16
    → e < 16
    → x < P
    → y < P
    → text_lt s t ≡ (if x == y then rest else ltb x y)
    → text_lt (hex_digit d ∷ s) (hex_digit e ∷ t)
      ≡ (if d * P + x == e * P + y then rest else ltb (d * P + x) (e * P + y))
unfolding text_lt
first_digit P d e x y s t rest hd he hx hy low =
    let same = (digit_order d e hd he).0 in
    let less = (digit_order d e hd he).1 in
    elim (lt_trichotomy d e) [
      | inl lt ↦ ground (arith, same, less, high_digit_lt P d e x y)
      | inr (inl eq) ↦ ground (arith, same, less, ap (λ z. z * P) eq)
      | inr (inr gt) ↦ ground (arith, same, less, high_digit_lt P e d y x)
    ]

split_digits :
    (k d x e y : ℕ) (xs ys : List ℕ)
    → d < 16
    → e < 16
    → x < 16 ^ k
    → y < 16 ^ k
    → text_lt (fixed k x ++ xs) (fixed k y ++ ys) ≡ (if x == y then text_lt xs ys else ltb x y)
    → text_lt (fixed (suc k) (d * 16 ^ k + x) ++ xs) (fixed (suc k) (e * 16 ^ k + y) ++ ys) ≡ (
        if d * 16 ^ k + x == e * 16 ^ k + y
        then text_lt xs ys
        else ltb (d * 16 ^ k + x) (e * 16 ^ k + y))
split_digits k d x e y xs ys hd he hx hy low =
    rw (fixed_first k d x hd hx, fixed_first k e y he hy)
      (first_digit (16 ^ k) d e x y (fixed k x ++ xs) (fixed k y ++ ys) (text_lt xs ys) hd he hx hy
        low)

no_digits :
    (a b : ℕ) (xs ys : List ℕ)
    → a < 1
    → b < 1
    → text_lt (fixed 0 a ++ xs) (fixed 0 b ++ ys) ≡ (if a == b then text_lt xs ys else ltb a b)
unfolding fixed
no_digits a b xs ys ha hb =
    let za : a ≡ 0 = omega arith in let zb : b ≡ 0 = omega arith in rw (za, zb) refl

-- With the same number of digits before two texts, the digits decide, or else what follows.
pub text_lt-fixed :
    (k a b : ℕ) (xs ys : List ℕ)
    → a < 16 ^ k
    → b < 16 ^ k
    → text_lt (fixed k a ++ xs) (fixed k b ++ ys) ≡ (if a == b then text_lt xs ys else ltb a b)
text_lt-fixed zero a b xs ys ha hb = no_digits a b xs ys ha hb
text_lt-fixed (suc k) a b xs ys ha hb =
    let (d, x, hd, hx, pa) = split_digit k a ha in
    let (e, y, he, hy, pb) = split_digit k b hb in
    let low = text_lt-fixed k x y xs ys hx hy in
    let joined = split_digits k d x e y xs ys hd he hx hy low in
    subst₂
      (λ m n.
        text_lt (fixed (suc k) m ++ xs) (fixed (suc k) n ++ ys)
        ≡ (if m == n then text_lt xs ys else ltb m n))
      (sym pa) (sym pb) joined
