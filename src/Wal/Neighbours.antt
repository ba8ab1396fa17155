-- ===== src/Wal/Neighbours.antt =====
-- The segments before and behind that of an LSN: `walfile_start_lsn`, `next_walfile_start_lsn` and
-- `previous_walfile_start_lsn` of pghoard/wal.py.
use pghoard.Base.{arith, none, some, ℕ, ◌%◌, ◌*◌, ◌+◌, ◌-◌, ◌/◌, ◌<◌, ◌^◌, ◌↔◌, ◌≡◌, ◌≢◌, ◌≤◌}
use pghoard.Wal.Lsn.{
  Lsn, wal_seg_size, seg, walfile_start_lsn, next_walfile_start_lsn, previous_walfile_start_lsn,
}

-- Below 2^56 an LSN lies in the segment that begins at its `walfile_start_lsn` and ends before its
-- `next_walfile_start_lsn`, and that segment has the number of the LSN.
pub walfile_start_lsn_bounds :
    (l : Lsn)
    → l.lsn < 2 ^ 56
    → ((walfile_start_lsn l).lsn ≤ l.lsn)
      × (l.lsn < (next_walfile_start_lsn l).lsn)
      × (seg (walfile_start_lsn l) ≡ seg l)
      × (seg (next_walfile_start_lsn l) ≡ seg l + 1)
unfolding walfile_start_lsn next_walfile_start_lsn seg
walfile_start_lsn_bounds l h = (omega arith, omega arith, omega arith, omega arith)

-- From 2^56 on, among the LSNs of 64 bits, the segment between those two values never holds the LSN.
pub walfile_start_lsn_wraps : (l : Lsn) → 2 ^ 56 ≤ l.lsn → (next_walfile_start_lsn l).lsn ≤ l.lsn
unfolding walfile_start_lsn next_walfile_start_lsn
walfile_start_lsn_wraps l h = omega arith

start_of_previous :
    (m : ℕ)
    → m < 2 ^ 32
    → m * 2 ^ 24 ≢ 0
    → (m * 2 ^ 24 - wal_seg_size) / 2 ^ 24 % 2 ^ 32 * 2 ^ 24 + wal_seg_size ≡ m * 2 ^ 24
start_of_previous m h nonzero = omega arith

-- The segment before that of an LSN, where there is one, is followed by the segment of the LSN, on
-- the same timeline and server version; there is none exactly at the first segment.
pub previous_walfile_start_lsn_lem :
    (l : Lsn)
    → ((p : Lsn)
        → previous_walfile_start_lsn l ≡ some p
        → next_walfile_start_lsn p ≡ walfile_start_lsn l)
      × ((previous_walfile_start_lsn l ≡ none) ↔ ((walfile_start_lsn l).lsn ≡ 0))
unfolding walfile_start_lsn next_walfile_start_lsn previous_walfile_start_lsn
previous_walfile_start_lsn_lem l = (
  λ p h. ground (arith, start_of_previous (l.lsn / 2 ^ 24 % 2 ^ 32)),
  (λ h. ground arith, λ h. ground arith),
)
