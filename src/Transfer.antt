-- ===== src/Transfer.antt =====
-- pghoard/transfer.py: the transfer agent.
pub mod Stats
pub mod Agent
