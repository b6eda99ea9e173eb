-- ===== src/Protocol.antt =====
-- The registry of the communication protocols (src/protocol/mod.rs).
pub mod State
pub mod Registry
mod Tests
