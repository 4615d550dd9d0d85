-- ===== src/Vocabulary/ExitKind.antt =====
-- vocabulary/exit_kind.py: one reading of a delistings.csv row. The proofs about each part stand
-- beside its definitions, and inputs at which the theorems apply in `Examples`.
pub mod Row
pub mod Kinds
pub mod Endings
pub mod Flags
pub mod Reasons
pub mod LastTrades
mod Examples
