-- ===== src/Wal/Header.antt =====
-- `read_header` and `verify_wal` of pghoard/wal.py. `struct.unpack("=HHIQI", ...)` reads native
-- byte order, which is taken to be little-endian; a blob is the list of its bytes. The start of a
-- segment is what `verify_wal` reads of it; the file object is rewound, so nothing of it changes.
use pghoard.Base.{
  List, Option, Result, [], drop, guard, if◌then◌else◌, key_error, leb, length, lsn_mismatch_error,
  none, ok, or_raise, os_error, raise, some, take, value_error, wal_blob_length_error, ℕ, ◌*◌, ◌+◌,
  ◌==◌, ◌>>=◌, ◌>>◌, ◌∷◌,
}
use pghoard.Wal.Lsn.{Lsn, from_walfile_name}

abbrev pub wal_header_len : ℕ
wal_header_len = 20

-- `WAL_MAGIC[magic]`
unfoldable pub wal_magic : ℕ → Option ℕ
wal_magic m =
    if m == 0xD071
    then some 90200
    else if m == 0xD075
    then some 90300
    else if m == 0xD07E
    then some 90400
    else if m == 0xD087
    then some 90500
    else if m == 0xD093
    then some 90600
    else if m == 0xD097
    then some 100000
    else if m == 0xD098
    then some 110000
    else if m == 0xD101
    then some 120000
    else if m == 0xD106
    then some 130000
    else if m == 0xD10D
    then some 140000
    else if m == 0xD110
    then some 150000
    else if m == 0xD113
    then some 160000
    else none

-- A little-endian number.
unfoldable pub little_endian : List ℕ → ℕ
little_endian [] = 0
little_endian (b ∷ bs) = b + 256 * little_endian bs

pub record WalHeader : Type 0 where
  pub version : ℕ
  pub lsn : Lsn

-- The offsets are those of `=HHIQI`: magic, info, timeline, page address, remaining length.
unfoldable pub read_header : List ℕ → Result WalHeader
unfolding little_endian
read_header blob = do
  guard (leb wal_header_len (length blob)) wal_blob_length_error
  let magic = little_endian (take 2 blob)
  let timeline_id = little_endian (take 4 (drop 4 blob))
  let pageaddr = little_endian (take 8 (drop 8 blob))
  version ← or_raise (wal_magic magic) key_error
  ok (record {
    version = version;
    lsn = record { lsn = pageaddr; server_version = some version; timeline_id = some timeline_id };
  })

-- `except (KeyError, OSError, ValueError)`: these, and the two subclasses of ValueError, come out
-- as ValueError.
header_error : Result WalHeader → Result WalHeader
header_error (ok h) = ok h
header_error (raise key_error) = raise value_error
header_error (raise os_error) = raise value_error
header_error (raise value_error) = raise value_error
header_error (raise wal_blob_length_error) = raise value_error
header_error (raise lsn_mismatch_error) = raise value_error
header_error (raise e) = raise e

-- `file` is the content of the segment, or the OSError that reading it raised. An LsnMismatchError
-- is a ValueError too; it keeps its own name here.
unfoldable pub verify_wal : List ℕ → Result (List ℕ) → Result (Unit {0})
unfolding header_error
verify_wal wal_name file = do
  hdr ← header_error (do content ← file; read_header (take wal_header_len content))
  expected_lsn ← from_walfile_name wal_name (some hdr.version)
  guard (hdr.lsn.lsn == expected_lsn.lsn) lsn_mismatch_error
