-- ===== src/Store.antt =====
-- About the jobs table as the statements change it: updates, indexes, ids, counts and rows.
pub mod Update
pub mod Unique
pub mod Counts
pub mod Ids
pub mod Replace
pub mod Evolves
pub mod Wf
