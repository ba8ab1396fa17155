-- ===== src/Wal/Verify.antt =====
-- What `verify_wal` of pghoard/wal.py accepts.
use pghoard.Base.{
  Bool, Error, List, [], ap, arith, drop, false, guard, if◌then◌else◌, leb, length, length-take,
  lsn_mismatch_error, ok, raise, refl, some, suc, sym, take, true, zero, ℕ, ◌*◌, ◌-◌, ◌/◌, ◌<◌,
  ◌==◌, ◌^◌, ◌∙◌, ◌∷◌, ◌≡◌, ◌≤◌,
}
use mathlib.Core.Path.{subst}
use pghoard.Wal.Lsn.{Lsn, wal_seg_size, walfile_name, from_walfile_name}
use pghoard.Wal.Header.{wal_header_len, wal_magic, little_endian, read_header, verify_wal}
use pghoard.Wal.Names.{lsn_limit, from_walfile_name-walfile_name}

-- The fields of a header that the check reads.
abbrev pub magic_of : List ℕ → ℕ
magic_of content = little_endian (take 2 content)

abbrev pub pageaddr_of : List ℕ → ℕ
pageaddr_of content = little_endian (take 8 (drop 8 content))

take-take : (m n : ℕ) (xs : List ℕ) → m ≤ n → take m (take n xs) ≡ take m xs
take-take zero n xs h = refl
take-take (suc m) zero xs h = absurd (omega arith)
take-take (suc m) (suc n) [] h = refl
take-take (suc m) (suc n) (x ∷ xs) h = ap (◌∷◌ x) (take-take m n xs (omega arith))

take-nil : (n : ℕ) → take {A = ℕ} n [] ≡ []
take-nil zero = refl
take-nil (suc n) = refl

drop-take : (m n : ℕ) (xs : List ℕ) → drop m (take n xs) ≡ take (n - m) (drop m xs)
drop-take zero n xs = let same : n - 0 ≡ n = omega arith in rw same refl
drop-take (suc m) zero xs = let none_left : 0 - suc m ≡ 0 = omega arith in rw none_left refl
drop-take (suc m) (suc n) [] = sym (take-nil (suc n - suc m))
drop-take (suc m) (suc n) (x ∷ xs) =
    let same : suc n - suc m ≡ n - m = omega arith in rw same (drop-take m n xs)

guard_if : (b : Bool) (e : Error) → guard b e ≡ (if b then ok tt else raise e)
guard_if true e = refl
guard_if false e = refl

-- Content of at least a header's length with a known magic number passes under a name exactly if
-- the page address of its header is the LSN of the name at the header's server version; otherwise
-- the mismatch is raised.
pub verify_wal_lem :
    (name content : List ℕ) (version : ℕ) (expected : Lsn)
    → wal_header_len ≤ length content
    → wal_magic (magic_of content) ≡ some version
    → from_walfile_name name (some version) ≡ ok expected
    → verify_wal name (ok content)
      ≡ (if pageaddr_of content == expected.lsn then ok tt else raise lsn_mismatch_error)
unfolding verify_wal read_header
verify_wal_lem name content version expected long known named =
    let enough : leb wal_header_len (length (take wal_header_len content)) ≡ true =
      ground (arith, length-take {0} wal_header_len content) in
    let magic : wal_magic (little_endian (take 2 (take 20 content))) ≡ some version =
      rw (take-take 2 20 content (omega arith)) known in
    let page : take 8 (drop 8 (take 20 content)) ≡ take 8 (drop 8 content) =
      rw (drop-take 8 20 content) (take-take 8 12 (drop 8 content) (omega arith)) in
    rw (enough, magic, page, named)
      (guard_if (pageaddr_of content == expected.lsn) lsn_mismatch_error)

-- A segment whose header has a known magic number and the LSN at which its own segment begins
-- passes the check under its own name.
pub verify_wal-walfile_name :
    (l : Lsn) (t version : ℕ) (content name : List ℕ)
    → l.timeline_id ≡ some t
    → t < 2 ^ 32
    → l.server_version ≡ some version
    → l.lsn < lsn_limit l.server_version
    → walfile_name l ≡ ok name
    → wal_header_len ≤ length content
    → wal_magic (magic_of content) ≡ some version
    → pageaddr_of content ≡ l.lsn / wal_seg_size * wal_seg_size
    → verify_wal name (ok content) ≡ ok tt
verify_wal-walfile_name l t version content name el ht ev hl named long known page =
    let start : Lsn = record l { lsn = l.lsn / wal_seg_size * wal_seg_size } in
    let back : from_walfile_name name l.server_version ≡ ok start =
      rw named at (from_walfile_name-walfile_name l t el ht hl) in
    let back' : from_walfile_name name (some version) ≡ ok start =
      subst (λ v. from_walfile_name name v ≡ ok start) ev back in
    verify_wal_lem name content version start long known back' ∙ ground arith
