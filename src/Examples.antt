-- ===== src/Examples.antt =====
-- Concrete tables, jobs and calls that the theorems are applied to.
pub mod Data
mod Controlled
mod Dispatched
mod Hists
mod Inserts
mod Limits
mod Pools
mod Queued
mod Reached
mod Runs
pub mod Sort
mod Sweeps
