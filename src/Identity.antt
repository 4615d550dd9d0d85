-- ===== src/Identity.antt =====
-- The identity package.
pub mod IssuerInForce
pub mod History
