-- ===== src/Backups.antt =====
-- The life of base backups in the object store: pghoard/pghoard.py and
-- pghoard/preservation_request.py.
pub mod Info
pub mod Preservation
pub mod Retention
pub mod WalSweep
pub mod Removal
