-- ===== src/Device.antt =====
-- The device configuration (src/device).
pub mod PendingSave
pub mod SystemConfig
mod Tests
