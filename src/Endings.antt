-- ===== src/Endings.antt =====
-- The endings package: what ended a security, and the rewrites of that answer.
pub mod EndOfEra
pub mod Rewrites
pub mod Classifier
pub mod LastTrade
pub mod TradingRecord
pub mod Handoffs
