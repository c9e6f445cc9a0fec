-- ===== src/State.antt =====
-- SlaveStats.h and DefaultExtState.h: what the library tells its user of its progress.
pub mod Defs
pub mod Default
pub mod Empty
pub mod Agreement
pub mod Examples
