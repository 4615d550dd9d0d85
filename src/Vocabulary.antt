-- ===== src/Vocabulary.antt =====
-- The vocabulary package.
pub mod CrspCodes
pub mod ExitKind
pub mod TradingCalendar
pub mod Identifiers
