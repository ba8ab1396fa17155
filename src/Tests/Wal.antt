-- ===== src/Tests/Wal.antt =====
-- Concrete inputs for the theorems about pghoard/wal.py.
use pghoard.Base.{
  List, Option, [], arith, codes, ltb, ok, refl, some, text_lt, true, ℕ, ◌&&◌, ◌*◌, ◌+◌, ◌/◌, ◌>>=◌,
  ◌^◌, ◌∷◌, ◌≡◌,
}
use pghoard.Wal.Hex.{upper_hex, int16, hex08}
use pghoard.Wal.Lsn.{
  Lsn, seg, wal_seg_size, segments_per_xlogid, from_walfile_name, walfile_name, is_name_digit,
  is_wal_name, is_partial_wal_name, is_timeline_name, to_text, of_text,
}
use pghoard.Wal.Names.{
  from_walfile_name-walfile_name, walfile_name-from_walfile_name, text_lt-walfile_name,
}

abbrev pg13 : Option ℕ
pg13 = some 130000

-- 11/9A000D60 on timeline 1
abbrev sample : Lsn
sample = record { lsn = 0x119A000D60; server_version = pg13; timeline_id = some 1 }

abbrev later_lsn : Lsn
later_lsn = record { lsn = 0x119C000000; server_version = pg13; timeline_id = some 1 }

abbrev far : Lsn
far = record { lsn = 2 ^ 56 + 5; server_version = pg13; timeline_id = some 1 }

sample_name : walfile_name sample ≡ ok (codes "00000001000000110000009A")
unfolding walfile_name segments_per_xlogid hex08
sample_name = refl

later_name : walfile_name later_lsn ≡ ok (codes "00000001000000110000009C")
unfolding walfile_name segments_per_xlogid hex08
later_name = refl

sample_text : to_text sample ≡ codes "11/9A000D60"
unfolding to_text upper_hex
sample_text = refl

read_text : of_text (codes "11/9A000D60") pg13 (some 1) ≡ ok sample
unfolding of_text int16
read_text = refl

names :
    is_wal_name (codes "00000001000000110000009A")
      && is_partial_wal_name (codes "00000001000000110000009A.partial")
      && is_timeline_name (codes "00000002.history")
    ≡ true
unfolding is_wal_name is_partial_wal_name is_timeline_name
names = refl

from_walfile_name-walfile_name_example :
    (walfile_name sample >>= λ name. from_walfile_name name pg13)
    ≡ ok (record sample { lsn = 0x119A000D60 / wal_seg_size * wal_seg_size })
from_walfile_name-walfile_name_example =
    from_walfile_name-walfile_name sample 1 refl (omega arith)
      (unfold segments_per_xlogid in omega arith)

walfile_name-from_walfile_name_example :
    (from_walfile_name (codes "00000001000000110000009A") pg13 >>= walfile_name)
    ≡ ok (codes "00000001000000110000009A")
unfolding is_name_digit int16 segments_per_xlogid
walfile_name-from_walfile_name_example =
    walfile_name-from_walfile_name (codes "00000001000000110000009A") pg13
      0x00000001000000110000009A refl refl refl (omega arith)

text_lt-walfile_name_example :
    text_lt (codes "00000001000000110000009A") (codes "00000001000000110000009C")
    ≡ ltb (seg sample) (seg later_lsn)
unfolding segments_per_xlogid
text_lt-walfile_name_example =
    text_lt-walfile_name sample later_lsn 1 refl refl refl (omega arith) (omega arith) (omega arith)
      sample_name later_name

-- The header of a segment of PostgreSQL 13 that starts at 11/9A000000.
abbrev content : List ℕ
content =
    0x06 ∷ 0xD1 ∷ 0 ∷ 0 ∷ 1 ∷ 0 ∷ 0 ∷ 0 ∷ 0 ∷ 0 ∷ 0 ∷ 0x9A ∷ 0x11 ∷ 0 ∷ 0 ∷ 0 ∷ 0 ∷ 0 ∷ 0 ∷ 0 ∷ 7
    ∷ []

segment_start : from_walfile_name (codes "00000001000000110000009C") pg13 ≡ ok later_lsn
unfolding from_walfile_name int16 segments_per_xlogid
segment_start = refl
