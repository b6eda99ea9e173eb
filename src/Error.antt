-- ===== src/Error.antt =====
-- The error handling of src/error.
pub mod RingLog
pub mod Recovery
mod Tests
