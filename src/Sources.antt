-- ===== src/Sources.antt =====
-- How the program asks remote services.
pub mod Retries
pub mod SecLimiter
pub mod Ftd
