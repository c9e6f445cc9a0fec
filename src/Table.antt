-- ===== src/Table.antt =====
-- table.h, relayloginfo.h and recordset.h.
pub mod Defs
pub mod Names
pub mod Bits
pub mod Examples
