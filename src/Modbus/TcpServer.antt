-- ===== src/Modbus/TcpServer.antt =====
-- The Modbus TCP server (src/modbus/tcp_server.rs).
pub mod Accept
pub mod Adu
pub mod Client
pub mod Poll
pub mod Schedule
mod Tests
