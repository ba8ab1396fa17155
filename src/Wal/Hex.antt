-- ===== src/Wal/Hex.antt =====
-- Numbers as hexadecimal text, for pghoard/wal.py: Python's `int(text, 16)` on the digits that
-- PostgreSQL writes, and the format `{:08X}`. A text is the list of its code points.
pub mod Fixed
pub mod Order
use pghoard.Base.{
  List, Option, [], if◌then◌else◌, leb, length, ltb, none, replicate, some, suc, zero, ℕ, ◌%◌, ◌&&◌,
  ◌*◌, ◌++◌, ◌+◌, ◌-◌, ◌/◌, ◌∷◌,
}

-- One digit of `int(text, 16)`.
unfoldable pub digit_value : ℕ → Option ℕ
digit_value c =
    if leb 48 c && leb c 57
    then some (c - 48)
    else if leb 65 c && leb c 70
    then some (c - 55)
    else if leb 97 c && leb c 102
    then some (c - 87)
    else none

-- The digits are read from the left; `none` is Python's ValueError.
unfoldable pub read_hex : ℕ → List ℕ → Option ℕ
unfolding digit_value
read_hex acc [] = some acc
read_hex acc (c ∷ cs) = elim (digit_value c) [ none ↦ none | some d ↦ read_hex (acc * 16 + d) cs ]

-- `int(text, 16)`; the empty text is a ValueError.
unfoldable pub int16 : List ℕ → Option ℕ
unfolding read_hex
int16 [] = none
int16 (c ∷ cs) = read_hex 0 (c ∷ cs)

unfoldable pub hex_digit : ℕ → ℕ
hex_digit d = if ltb d 10 then 48 + d else 55 + d

-- The format `{:X}`; `n + 1` digits are always enough.
unfoldable pub hex_digits : ℕ → ℕ → List ℕ
unfolding hex_digit
hex_digits zero n = []
hex_digits (suc f) n =
    let rest = hex_digits f (n / 16) in
    if ltb n 16 then hex_digit n ∷ [] else rest ++ hex_digit (n % 16) ∷ []

unfoldable pub upper_hex : ℕ → List ℕ
unfolding hex_digits
upper_hex n = hex_digits (suc n) n

-- The format `{:08X}`: padded by zeros to eight places, longer where the number needs it.
unfoldable pub hex08 : ℕ → List ℕ
unfolding upper_hex
hex08 n = replicate (8 - length (upper_hex n)) 48 ++ upper_hex n
