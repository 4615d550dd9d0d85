-- ===== src/Identity/History.antt =====
-- identity/history.py: what a security was called when, and where its history ends.
pub mod Ranges
pub mod Backfill
pub mod Endings
pub mod Rows
pub mod Statuses
