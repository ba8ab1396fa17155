-- ===== src/Web/Prefetch/Segments.antt =====
-- The names that pghoard/webserver.py fetches ahead, and the names of pghoard/wal.py.
use pghoard.Base.{
  Files, List, Result, Text, [], arith, codes, none, ok, ok-injective, refl, some, suc, sym,
  text_eq, zero, ℕ, ◌%◌, ◌*◌, ◌++◌, ◌+◌, ◌/◌, ◌<◌, ◌>>=◌, ◌^◌, ◌∙◌, ◌∷◌, ◌≡◌,
}
use pghoard.Wal.Hex.{hex08, upper_hex}
use pghoard.Wal.Hex.Fixed.{hex08-fixed, pad-fixed}
use pghoard.Wal.Lsn.{Lsn, wal_seg_size, segments_per_xlogid, seg, walfile_name}
use pghoard.Wal.Names.{int16_name, three_parts}
use pghoard.Web.Prefetch.{
  hex024, next_xlog_num, xlog_names, is_segment_there, leave_out, prefetch_filenames,
}

-- The LSN at which a segment starts.
abbrev pub segment : ℕ → ℕ → Lsn
segment t k = record { lsn = k * wal_seg_size; server_version = none; timeline_id = some t }

-- Specification: the names of so many segments after one.
unfoldable pub following : ℕ → ℕ → ℕ → Result (List Text)
following zero t k = ok []
following (suc m) t k = do
  name ← walfile_name (segment t (k + 1))
  names ← following m t (k + 1)
  ok (name ∷ names)

name_of_segment : ℕ → ℕ → Text
name_of_segment t k = hex08 t ++ (hex08 (k / 256) ++ hex08 (k % 256))

xlog_num : ℕ → ℕ → ℕ
xlog_num t k = (t * 2 ^ 32 + k / 256) * 2 ^ 32 + k % 256

walfile_name-segment : (t k : ℕ) → walfile_name (segment t k) ≡ ok (name_of_segment t k)
unfolding walfile_name name_of_segment segments_per_xlogid seg
walfile_name-segment t k =
    let same : k * wal_seg_size / wal_seg_size ≡ k = omega arith in rw same refl

next_xlog_num-xlog_num : (t k : ℕ) → next_xlog_num (xlog_num t k) ≡ xlog_num t (k + 1)
unfolding next_xlog_num xlog_num
next_xlog_num-xlog_num t k = ground arith

hex024-xlog_num : (t k : ℕ) → t < 2 ^ 32 → k < 2 ^ 40 → hex024 (xlog_num t k) ≡ name_of_segment t k
unfolding hex024 upper_hex name_of_segment xlog_num
hex024-xlog_num t k ht hk =
    let n = (t * 2 ^ 32 + k / 256) * 2 ^ 32 + k % 256 in
    let high : n / 2 ^ 64 ≡ t = omega arith in
    let mid : n / 2 ^ 32 % 2 ^ 32 ≡ k / 256 = omega arith in
    let low : n % 2 ^ 32 ≡ k % 256 = omega arith in
    pad-fixed 23 (suc n) n (omega arith) (omega arith)
    ∙ three_parts n
    ∙ rw (high, mid, low, hex08-fixed t ht)
        (rw (hex08-fixed (k / 256) (omega arith)) (rw (hex08-fixed (k % 256) (omega arith)) refl))

following-xlog_names :
    (m t k : ℕ) → t < 2 ^ 32 → k + m < 2 ^ 40 → following m t k ≡ ok (xlog_names m (xlog_num t k))
unfolding following xlog_names
following-xlog_names zero t k ht h = refl
following-xlog_names (suc m) t k ht h = rw (walfile_name-segment t (k + 1)) (
    rw (following-xlog_names m t (k + 1) ht (omega arith))
      (rw (next_xlog_num-xlog_num t k) (rw (hex024-xlog_num t (k + 1) ht (omega arith)) refl)))

-- On a server since 9.3, what is fetched ahead of a segment are the following segments of its
-- timeline, by the names that their LSNs have, but for valid ones that are in the directory: also
-- where the last two digits run over.
pub prefetch_filenames-walfile_name :
    (m t k : ℕ) (xlog_dir name : Text) (files : Files)
    → t < 2 ^ 32
    → k + m < 2 ^ 40
    → walfile_name (segment t k) ≡ ok name
    → prefetch_filenames m xlog_dir (codes "xlog") name files
      ≡ (following m t k >>= λ names. ok (leave_out (is_segment_there xlog_dir files) names))
unfolding prefetch_filenames text_eq name_of_segment xlog_num
prefetch_filenames-walfile_name m t k xlog_dir name files ht h e =
    let same : name ≡ name_of_segment t k = ok-injective (sym e ∙ walfile_name-segment t k) in
    rw same (
      rw (int16_name t (k / 256) (k % 256) ht (omega arith) (omega arith))
        (rw (following-xlog_names m t k ht h) refl))
