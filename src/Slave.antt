-- ===== src/Slave.antt =====
-- Slave.h, Slave.cpp and collate.cpp: the client of the master.
pub mod Defs
pub mod Schema
pub mod Query
pub mod Altered
pub mod Missed
pub mod Process
pub mod Requests
pub mod FreeId
pub mod Sizes
pub mod Checks
pub mod Loop
pub mod Connect
pub mod Synced
pub mod Handlers
pub mod Resume
pub mod Kept
pub mod Delivered
pub mod Commands
pub mod Examples
pub mod Deliveries
