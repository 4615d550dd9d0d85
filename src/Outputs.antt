-- ===== src/Outputs.antt =====
-- What the program publishes of an ending.
pub mod Dlret
pub mod Verdict
