-- ===== src/Driver.antt =====
-- internal/core/driver.go, driver_sqlite.go and driver_postgres.go, by operation.
pub mod Opts
pub mod Barrier
pub mod FollowUps
pub mod Finalize
pub mod Claim
pub mod Sweep
