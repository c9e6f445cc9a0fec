-- ===== src/Gtid.antt =====
-- The GTID part of `Position`, binlog_pos.h and binlog_pos.cpp.
pub mod Defs
pub mod Canon
pub mod Members
pub mod Sets
pub mod Examples
