-- ===== src/Remote.antt =====
-- Slave.cpp: `get_remote_binlog` as it is called, with the life of its connection.
pub mod Defs
pub mod Binlog
pub mod Counts
pub mod Closed
pub mod Lost
pub mod Turns
pub mod Resume
pub mod Examples
