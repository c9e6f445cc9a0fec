-- ===== src/Rows.antt =====
-- slave_log_event.cpp: row images, `unpack_row` and `apply_row_event`.
pub mod Defs
pub mod Bits
pub mod Image
pub mod Apply
pub mod Ends
pub mod Delivery
pub mod Unmoved
pub mod Endless
pub mod Termination
pub mod Marks
pub mod Filter
pub mod Filtered
pub mod Choices
pub mod Examples
