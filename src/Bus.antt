-- ===== src/Bus.antt =====
-- The data bus (src/bus).
pub mod EventBus
pub mod Backends
mod Tests
