-- ===== src/Wal/Names.antt =====
-- The names of WAL segments: `walfile_name` and `from_walfile_name` of pghoard/wal.py.
use pghoard.Base.{
  Bool-cases, List, Option, [], all, ap, arith, false, if◌then◌else◌, inl, inr, length,
  length-append, ltb, none, ok, ok-injective, refl, some, suc, sym, text_lt, true, ℕ, ◌%◌, ◌*◌,
  ◌++◌, ◌+◌, ◌-◌, ◌/◌, ◌<◌, ◌==◌, ◌>>=◌, ◌^◌, ◌∙◌, ◌∷◌, ◌≡◌, ◌≤◌, ◌⊎◌,
}
use mathlib.Core.Path.{subst}
use pghoard.Wal.Hex.Fixed.{places}
use mathlib.Core.List.{append-nil}
use native.Mathlib.Nat.{pow-suc}
use pghoard.Wal.Hex.{int16, hex08, hex_digit, read_hex}
use pghoard.Wal.Hex.Fixed.{
  fixed, fixed-append, hex08-fixed, read_hex-fixed, read_hex-append, int16_of_read, length-fixed,
  fixed_first,
}
use pghoard.Wal.Hex.Order.{text_lt-fixed, lt_trichotomy, high_digit_lt}
use pghoard.Wal.Lsn.{
  Lsn, wal_seg_size, segments_per_xlogid, from_walfile_name, walfile_name, seg, is_name_digit,
}

pub segments_per_xlogid-cases :
    (v : Option ℕ) → (segments_per_xlogid v ≡ 256) ⊎ (segments_per_xlogid v ≡ 255)
unfolding segments_per_xlogid
segments_per_xlogid-cases none = inl refl
segments_per_xlogid-cases (some v) = elim (Bool-cases (ltb v 90300)) [
  | inl old ↦ inr (rw old refl)
  | inr new ↦ inl (rw new refl)
]

-- Three numbers of eight digits read as one.
pub int16_name :
    (t a b : ℕ)
    → t < 2 ^ 32
    → a < 2 ^ 32
    → b < 2 ^ 32
    → int16 (hex08 t ++ (hex08 a ++ hex08 b)) ≡ some ((t * 2 ^ 32 + a) * 2 ^ 32 + b)
int16_name t a b ht ha hb =
    let name = fixed 8 t ++ (fixed 8 a ++ fixed 8 b) in
    let long : 0 < length name =
      omega (arith, length-append {0} (fixed 8 t) (fixed 8 a ++ fixed 8 b), length-fixed 8 t) in
    rw (hex08-fixed t ht, hex08-fixed a ha, hex08-fixed b hb)
      (int16_of_read name _ long (
        read_hex-append 0 t (fixed 8 t) (fixed 8 a ++ fixed 8 b)
          (read_hex-fixed 8 0 t ht ∙ ap some (omega arith))
        ∙ read_hex-append t (t * 2 ^ 32 + a) (fixed 8 a) (fixed 8 b) (read_hex-fixed 8 t a ha)
        ∙ read_hex-fixed 8 (t * 2 ^ 32 + a) b hb))

-- The largest LSN whose segment has a name of 24 digits is below this bound.
abbrev pub lsn_limit : Option ℕ → ℕ
lsn_limit v = 2 ^ 32 * (segments_per_xlogid v * wal_seg_size)

name_parts :
    (n : ℕ) (v : Option ℕ)
    → n < lsn_limit v
    → (n / wal_seg_size / segments_per_xlogid v < 2 ^ 32)
      × (n / wal_seg_size % segments_per_xlogid v < segments_per_xlogid v)
      × (segments_per_xlogid v < 2 ^ 32)
      × (n / wal_seg_size / segments_per_xlogid v * segments_per_xlogid v
            + n / wal_seg_size % segments_per_xlogid v
          ≡ n / wal_seg_size)
name_parts n v h = elim (segments_per_xlogid-cases v) [
  | inl new ↦ let b : n < 2 ^ 32 * (256 * wal_seg_size) = rw new at h in rw new (omega arith)
  | inr old ↦ let b : n < 2 ^ 32 * (255 * wal_seg_size) = rw old at h in rw old (omega arith)
]

-- The name of the segment of an LSN, read back at the same server version, gives the first LSN of
-- that segment on the same timeline.
pub from_walfile_name-walfile_name :
    (l : Lsn) (t : ℕ)
    → l.timeline_id ≡ some t
    → t < 2 ^ 32
    → l.lsn < lsn_limit l.server_version
    → (walfile_name l >>= λ name. from_walfile_name name l.server_version)
      ≡ ok (record l { lsn = l.lsn / wal_seg_size * wal_seg_size })
unfolding walfile_name from_walfile_name
from_walfile_name-walfile_name l t e ht h =
    let (high, low, small, whole) = name_parts l.lsn l.server_version h in
    let per = segments_per_xlogid l.server_version in
    let a = l.lsn / wal_seg_size / per in
    let b = l.lsn / wal_seg_size % per in
    let n = (t * 2 ^ 32 + a) * 2 ^ 32 + b in
    let timeline : n / 2 ^ 64 ≡ t = omega arith in
    let logid : n / 2 ^ 32 % 2 ^ 32 ≡ a = omega arith in
    let segno : n % 2 ^ 32 ≡ b = omega arith in
    rw (e, int16_name t a b ht high (omega arith), timeline, logid, segno, whole) refl

digit_of_name : (c : ℕ) → is_name_digit c ≡ true → (d : ℕ) × (d < 16) × (hex_digit d ≡ c)
unfolding is_name_digit hex_digit
digit_of_name c h = (if ltb c 58 then c - 48 else c - 55, ground arith, ground arith)

digit_room : (P d v : ℕ) → d < 16 → v < P → d * P + v < P * 16
digit_room P d v hd hv = let step : suc d * P ≤ 16 * P = grind arith in omega (arith, step)

-- A text of digits is the fixed-width writing of a number.
text_of_digits :
    (s : List ℕ)
    → all is_name_digit s ≡ true
    → (v : ℕ) × (v < 16 ^ length s) × (fixed (length s) v ≡ s)
text_of_digits [] h = (0, omega arith, unfold fixed in refl)
text_of_digits (c ∷ s) h =
    let (d, hd, same) = digit_of_name c (ground arith) in
    let (v, hv, rest) = text_of_digits s (ground arith) in
    let P = 16 ^ length s in
    (
      d * P + v,
      simp pow-suc (digit_room P d v hd hv),
      fixed_first (length s) d v hd hv ∙ rw (same, rest) refl,
    )

-- The three numbers of a name.
pub three_parts :
    (n : ℕ)
    → fixed 24 n ≡ fixed 8 (n / 2 ^ 64) ++ (fixed 8 (n / 2 ^ 32 % 2 ^ 32) ++ fixed 8 (n % 2 ^ 32))
unfolding places
three_parts n =
    let high = n / 2 ^ 64 in
    let mid = n / 2 ^ 32 % 2 ^ 32 in
    let low = n % 2 ^ 32 in
    let rest : mid * 16 ^ 8 + low < 16 ^ 16 = omega arith in
    let whole : n ≡ high * 16 ^ 16 + (mid * 16 ^ 8 + low) = omega arith in
    ap (fixed 24) whole
    ∙ fixed-append 16 8 high (mid * 16 ^ 8 + low) rest
    ∙ ap (λ ds. fixed 8 high ++ ds) (fixed-append 8 8 mid low (omega arith))

seg_parts :
    (v : Option ℕ) (q r : ℕ)
    → r < segments_per_xlogid v
    → ((q * segments_per_xlogid v + r) * wal_seg_size / wal_seg_size / segments_per_xlogid v ≡ q)
      × ((q * segments_per_xlogid v + r) * wal_seg_size / wal_seg_size % segments_per_xlogid v ≡ r)
seg_parts v q r h = elim (segments_per_xlogid-cases v) [
  | inl new ↦ let b : r < 256 = rw new at h in rw new (omega arith, omega arith)
  | inr old ↦ let b : r < 255 = rw old at h in rw old (omega arith, omega arith)
]

-- The number that a name reads as.
int16_text :
    (s : List ℕ) (n : ℕ)
    → all is_name_digit s ≡ true
    → length s ≡ 24
    → int16 s ≡ some n
    → (fixed 24 n ≡ s) × (n < 16 ^ 24)
int16_text s n digits long e =
    let (v, hv, text) = text_of_digits s digits in
    let text' : fixed 24 v ≡ s = rw long at text in
    let room : v < 16 ^ 24 = rw long at hv in
    let read : read_hex 0 s ≡ some v =
      subst (λ x. read_hex 0 x ≡ some v) text'
        (read_hex-fixed 24 0 v room ∙ ap some (omega arith)) in
    let same : some v ≡ some n = sym (int16_of_read s v (omega arith) read) ∙ e in
    let v_eq : v ≡ n = cc same in (subst (λ x. fixed 24 x ≡ s) v_eq text', omega arith)

-- Reading a segment's name and writing it again gives the name, if its last eight digits are below
-- the number of segments that one log file has.
pub walfile_name-from_walfile_name :
    (s : List ℕ) (server_version : Option ℕ) (n : ℕ)
    → all is_name_digit s ≡ true
    → length s ≡ 24
    → int16 s ≡ some n
    → n % 2 ^ 32 < segments_per_xlogid server_version
    → (from_walfile_name s server_version >>= walfile_name) ≡ ok s
unfolding from_walfile_name walfile_name
walfile_name-from_walfile_name s sv n digits long e h =
    let (text, room) = int16_text s n digits long e in
    let (hi, lo) = seg_parts sv (n / 2 ^ 32 % 2 ^ 32) (n % 2 ^ 32) h in
    let small = hex08-fixed (n / 2 ^ 64) (omega arith) in
    rw
      (
        e,
        hi,
        lo,
        small,
        hex08-fixed (n / 2 ^ 32 % 2 ^ 32) (omega arith),
        hex08-fixed (n % 2 ^ 32) (omega arith),
      )
      (ap ok (sym (three_parts n) ∙ text))

lex_order :
    (P a b c d : ℕ)
    → b < P
    → d < P
    → (if a == c then (if b == d then false else ltb b d) else ltb a c)
      ≡ ltb (a * P + b) (c * P + d)
lex_order P a b c d hb hd = elim (lt_trichotomy a c) [
  | inl lt ↦ ground (arith, high_digit_lt P a c b d)
  | inr (inl eq) ↦ ground (arith, ap (λ z. z * P) eq)
  | inr (inr gt) ↦ ground (arith, high_digit_lt P c a d b)
]

name_text : ℕ → ℕ → ℕ → List ℕ
name_text t a b = fixed 8 t ++ (fixed 8 a ++ fixed 8 b)

walfile_name_lem :
    (l : Lsn) (t : ℕ)
    → l.timeline_id ≡ some t
    → t < 2 ^ 32
    → l.lsn < lsn_limit l.server_version
    → walfile_name l
      ≡ ok (
          name_text t
            (l.lsn / wal_seg_size / segments_per_xlogid l.server_version)
            (l.lsn / wal_seg_size % segments_per_xlogid l.server_version))
unfolding walfile_name name_text
walfile_name_lem l t e ht h =
    let (high, low, small, whole) = name_parts l.lsn l.server_version h in
    let low_text =
      hex08-fixed (l.lsn / wal_seg_size % segments_per_xlogid l.server_version) (omega arith) in
    rw e (rw (hex08-fixed t ht, hex08-fixed _ high, low_text) refl)

name_order :
    (P t a b c d : ℕ)
    → t < 2 ^ 32
    → a < 2 ^ 32
    → c < 2 ^ 32
    → b < 2 ^ 32
    → d < 2 ^ 32
    → b < P
    → d < P
    → text_lt (name_text t a b) (name_text t c d) ≡ ltb (a * P + b) (c * P + d)
unfolding name_text text_lt
name_order P t a b c d ht ha hc hb hd pb pd =
    let tail : text_lt (fixed 8 b ++ []) (fixed 8 d ++ []) ≡ (if b == d then false else ltb b d) =
      text_lt-fixed 8 b d [] [] hb hd in
    let lows : text_lt (fixed 8 b) (fixed 8 d) ≡ (if b == d then false else ltb b d) =
      rw (append-nil, append-nil) at tail in
    let middle = text_lt-fixed 8 a c (fixed 8 b) (fixed 8 d) ha hc in
    let first = text_lt-fixed 8 t t (fixed 8 a ++ fixed 8 b) (fixed 8 c ++ fixed 8 d) ht ht in
    ground (arith, first, middle, lows, lex_order P a b c d)

-- On one timeline and server version, the names of two segments compare as texts the way the
-- segments follow one another.
pub text_lt-walfile_name :
    (l k : Lsn) (t : ℕ) {a b : List ℕ}
    → l.timeline_id ≡ some t
    → k.timeline_id ≡ some t
    → l.server_version ≡ k.server_version
    → t < 2 ^ 32
    → l.lsn < lsn_limit l.server_version
    → k.lsn < lsn_limit k.server_version
    → walfile_name l ≡ ok a
    → walfile_name k ≡ ok b
    → text_lt a b ≡ ltb (seg l) (seg k)
unfolding seg
text_lt-walfile_name l k t {a} {b} el ek ev ht hl hk na nb =
    let v = l.server_version in
    let P = segments_per_xlogid v in
    let (high, low, small, whole) = name_parts l.lsn v hl in
    let (high', low', small', whole') = name_parts k.lsn v (rw ev hk) in
    let b_eq = ok-injective (sym nb ∙ walfile_name_lem k t ek ht hk) in
    rw (ok-injective (sym na ∙ walfile_name_lem l t el ht hl), b_eq, ← ev)
      (name_order P t (l.lsn / wal_seg_size / P) (l.lsn / wal_seg_size % P)
          (k.lsn / wal_seg_size / P) (k.lsn / wal_seg_size % P) ht high high' (omega arith)
          (omega arith) low low'
        ∙ rw (whole, whole') refl)
