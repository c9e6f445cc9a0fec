-- ===== src/Event.antt =====
-- slave_log_event.h and slave_log_event.cpp: the events of the binary log.
pub mod Defs
pub mod Headers
pub mod Read
pub mod Accepted
pub mod Calls
pub mod Safe
pub mod Short
pub mod Pieces
pub mod TableMap
pub mod RowsEvent
pub mod Examples
