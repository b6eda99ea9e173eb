-- ===== src/Modbus.antt =====
-- The Modbus protocol stack (src/modbus).
pub mod Crc
pub mod Backend
pub mod Pdu
pub mod Stats
pub mod RtuSlave
pub mod RtuMaster
pub mod TcpServer
mod Tests
