-- ===== src/Insert.antt =====
-- Enqueueing: the stamp, the row, the unique indexes and the inserts.
pub mod Stamp
pub mod Row
pub mod Conflict
pub mod Blocks
pub mod Client
