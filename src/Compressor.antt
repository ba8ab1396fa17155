-- ===== src/Compressor.antt =====
-- pghoard/compressor.py: the compressor thread and the WAL file deleter.
pub mod Deleter
pub mod Loop
