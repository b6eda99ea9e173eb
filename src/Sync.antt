-- ===== src/Sync.antt =====
-- The synchronisation primitives of src/sync.rs.
pub mod Bits64
pub mod Ring
pub mod Cell
mod Tests
