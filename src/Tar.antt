-- ===== src/Tar.antt =====
-- The tar emulator, pghoard/gnutaremu.py: transform statements and the names of extracted files.
pub mod Sed
pub mod Names
