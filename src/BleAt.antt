-- ===== src/BleAt.antt =====
-- The Bluetooth service of src/ble_at.
pub mod AdvertisingHealth
mod Tests
