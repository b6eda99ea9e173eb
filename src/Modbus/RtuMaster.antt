-- ===== src/Modbus/RtuMaster.antt =====
-- The Modbus RTU master (src/modbus/rtu_master.rs).
pub mod Results
pub mod Table
pub mod Poll
mod Tests
