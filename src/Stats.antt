-- ===== src/Stats.antt =====
-- The hourly statistics of internal/core.
pub mod Hist
