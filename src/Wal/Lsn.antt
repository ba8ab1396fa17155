-- ===== src/Wal/Lsn.antt =====
-- The class `LSN` and `segments_per_xlogid` of pghoard/wal.py, and its regular expressions for
-- file names. Bit operations on an LSN are written as the arithmetic that they do.
use pghoard.Base.{
  Bool, List, Option, Result, [], codes, false, guard, if◌then◌else◌, leb, ltb, none, ok, or_raise,
  raise, some, sub_ℕ, suc, true, value_error, zero, ℕ, ℤ, ◌%◌, ◌&&◌, ◌*◌, ◌++◌, ◌+◌, ◌-◌, ◌/◌, ◌==◌,
  ◌>>=◌, ◌>>◌, ◌^◌, ◌||◌, ◌∷◌,
}
use pghoard.Wal.Hex.{int16, hex08, upper_hex}

abbrev pub wal_seg_size : ℕ
wal_seg_size = 16 * 1024 * 1024

unfoldable pub segments_per_xlogid : Option ℕ → ℕ
segments_per_xlogid none = 0x100000000 / wal_seg_size
segments_per_xlogid (some v) =
    if ltb v 90300 then 0x0FFFFFFFF / wal_seg_size else 0x100000000 / wal_seg_size

pub record Lsn : Type 0 where
  pub lsn : ℕ
  pub server_version : Option ℕ
  pub timeline_id : Option ℕ

-- The text before the first `/`, and the text behind it.
split_slash : List ℕ → Option (List ℕ × List ℕ)
split_slash [] = none
split_slash (c ∷ cs) =
    let rest = split_slash cs in
    if c == b'/' then some ([], cs) else elim rest [ none ↦ none | some (a, b) ↦ some (c ∷ a, b) ]

-- The constructor at a text, `%X/%X`. At an int it is the record itself.
unfoldable pub of_text : List ℕ → Option ℕ → Option ℕ → Result Lsn
unfolding split_slash
of_text value server_version timeline_id = elim (split_slash value) [
  | none ↦ raise value_error
  | some (log_hex, seg_hex) ↦ do
    log ← or_raise (int16 log_hex) value_error
    seg ← or_raise (int16 seg_hex) value_error
    ok (record {
      lsn = log * 2 ^ 32 + seg;
      server_version = server_version;
      timeline_id = timeline_id;
    })
]

unfoldable pub from_walfile_name : List ℕ → Option ℕ → Result Lsn
from_walfile_name wal_filename server_version = do
  n ← or_raise (int16 wal_filename) value_error
  let timeline_id = n / 2 ^ 64
  let logid = n / 2 ^ 32 % 2 ^ 32
  let segno = n % 2 ^ 32
  let lsn = (logid * segments_per_xlogid server_version + segno) * wal_seg_size
  ok (record { lsn = lsn; server_version = server_version; timeline_id = some timeline_id })

-- `_log` and `_pos` (here `position`): the high and the low four bytes.
unfoldable pub log : Lsn → ℕ
log l = l.lsn / 2 ^ 32

unfoldable pub position : Lsn → ℕ
position l = l.lsn % 2 ^ 32

unfoldable pub seg : Lsn → ℕ
seg l = l.lsn / wal_seg_size

unfoldable pub walfile_name : Lsn → Result (List ℕ)
unfolding seg
walfile_name l = do
  timeline ← or_raise l.timeline_id value_error
  let per_log = segments_per_xlogid l.server_version
  ok (hex08 timeline ++ (hex08 (seg l / per_log) ++ hex08 (seg l % per_log)))

-- `__str__`
unfoldable pub to_text : Lsn → List ℕ
unfolding log position
to_text l = upper_hex (log l) ++ b'/' ∷ upper_hex (position l)

same_option : Option ℕ → Option ℕ → Bool
same_option none none = true
same_option (some a) (some b) = a == b
same_option _ _ = false

-- `_assert_sane_for_comparison`, at another LSN
unfoldable pub assert_sane_for_comparison : Lsn → Lsn → Result (Unit {0})
unfolding same_option
assert_sane_for_comparison l other = do
  guard (same_option l.timeline_id other.timeline_id) value_error
  guard (same_option l.server_version other.server_version) value_error

-- `__eq__`
unfoldable pub equals : Lsn → Lsn → Bool
unfolding same_option
equals l other =
    l.lsn == other.lsn
    && (same_option l.timeline_id other.timeline_id
        && same_option l.server_version other.server_version)

-- `__lt__`, `__le__`, `__gt__`, `__ge__`
unfoldable pub less : Lsn → Lsn → Result Bool
unfolding assert_sane_for_comparison
less l other = do assert_sane_for_comparison l other; ok (ltb l.lsn other.lsn)

unfoldable pub less_equal : Lsn → Lsn → Result Bool
unfolding assert_sane_for_comparison
less_equal l other = do assert_sane_for_comparison l other; ok (leb l.lsn other.lsn)

unfoldable pub greater : Lsn → Lsn → Result Bool
unfolding assert_sane_for_comparison
greater l other = do assert_sane_for_comparison l other; ok (ltb other.lsn l.lsn)

unfoldable pub greater_equal : Lsn → Lsn → Result Bool
unfolding assert_sane_for_comparison
greater_equal l other = do assert_sane_for_comparison l other; ok (leb other.lsn l.lsn)

-- `__add__`
unfoldable pub plus : Lsn → ℕ → Lsn
plus l n = record l { lsn = l.lsn + n }

-- `__sub__`, at another LSN and at an int
unfoldable pub minus : Lsn → Lsn → Result ℤ
unfolding assert_sane_for_comparison
minus l other = do assert_sane_for_comparison l other; ok (sub_ℕ l.lsn other.lsn)

unfoldable pub minus_int : Lsn → ℕ → ℤ
minus_int l n = sub_ℕ l.lsn n

-- The mask 0xFFFFFFFF000000 keeps the bits 24 to 55.
unfoldable pub walfile_start_lsn : Lsn → Lsn
walfile_start_lsn l = record l { lsn = l.lsn / 2 ^ 24 % 2 ^ 32 * 2 ^ 24 }

unfoldable pub next_walfile_start_lsn : Lsn → Lsn
unfolding walfile_start_lsn plus
next_walfile_start_lsn l = plus (walfile_start_lsn l) wal_seg_size

unfoldable pub previous_walfile_start_lsn : Lsn → Option Lsn
unfolding walfile_start_lsn
previous_walfile_start_lsn l =
    if (walfile_start_lsn l).lsn == 0
    then none
    else some (record l { lsn = (walfile_start_lsn l).lsn - wal_seg_size })

unfoldable pub at_timeline : Lsn → ℕ → Lsn
at_timeline l timeline_id = record l { timeline_id = some timeline_id }

-- A digit of the classes `[A-F0-9]`.
unfoldable pub is_name_digit : ℕ → Bool
is_name_digit c = (leb b'A' c && leb c b'F') || (leb b'0' c && leb c b'9')

-- `^[A-F0-9]{n}` at the start of a text: what follows.
unfoldable pub after_digits : ℕ → List ℕ → Option (List ℕ)
unfolding is_name_digit
after_digits zero cs = some cs
after_digits (suc n) [] = none
after_digits (suc n) (c ∷ cs) =
    let rest = after_digits n cs in if is_name_digit c then rest else none

-- `$`: the end of the text, or a newline at its end
unfoldable pub at_end : List ℕ → Bool
at_end [] = true
at_end (c ∷ []) = c == 10
at_end _ = false

strip_prefix : List ℕ → List ℕ → Option (List ℕ)
strip_prefix [] cs = some cs
strip_prefix (p ∷ ps) [] = none
strip_prefix (p ∷ ps) (c ∷ cs) = let rest = strip_prefix ps cs in if p == c then rest else none

unfoldable pub ends : Option (List ℕ) → Bool
unfolding at_end
ends none = false
ends (some cs) = at_end cs

ends_with : List ℕ → Option (List ℕ) → Bool
unfolding strip_prefix ends
ends_with suffix none = false
ends_with suffix (some cs) = ends (strip_prefix suffix cs)

-- `WAL_RE.match(name)`, `PARTIAL_WAL_RE.match(name)`, `TIMELINE_RE.match(name)`
unfoldable pub is_wal_name : List ℕ → Bool
unfolding after_digits ends
is_wal_name name = ends (after_digits 24 name)

unfoldable pub is_partial_wal_name : List ℕ → Bool
unfolding after_digits ends_with
is_partial_wal_name name = ends_with (codes ".partial") (after_digits 24 name)

unfoldable pub is_timeline_name : List ℕ → Bool
unfolding after_digits ends_with
is_timeline_name name = ends_with (codes ".history") (after_digits 8 name)
