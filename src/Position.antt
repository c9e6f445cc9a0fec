-- ===== src/Position.antt =====
-- binlog_pos.h and binlog_pos.cpp: a position in the binary log.
pub mod Defs
pub mod Encode
pub mod Text
pub mod Tokens
pub mod Digits
pub mod Intervals
pub mod Entries
pub mod RoundTrip
pub mod Content
pub mod Hex
pub mod Examples
