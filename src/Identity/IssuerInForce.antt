-- ===== src/Identity/IssuerInForce.antt =====
-- identity/issuer_in_force.py: the issuer CIK in force on each sighting, and each security's issuer
-- timeline. `name_at` and `parse_day` are those of filings/evidence.py.
pub mod Company
pub mod InForce
pub mod Timeline
