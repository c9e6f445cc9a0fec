-- ===== src/Event/Defs.antt =====
-- slave_log_event.h: event codes and the records that the events are parsed into.
use libslave.Common.{ℕ, Bool, Bytes}
use libslave.Common.Int.{ℤ}

-- `Log_event_type` is a number; these are the codes that the code singles out.
abbrev pub query_event : ℕ
query_event = 2

abbrev pub rotate_event : ℕ
rotate_event = 4

abbrev pub format_description_event : ℕ
format_description_event = 15

abbrev pub xid_event : ℕ
xid_event = 16

abbrev pub table_map_event : ℕ
table_map_event = 19

abbrev pub write_rows_event_v1 : ℕ
write_rows_event_v1 = 23

abbrev pub update_rows_event_v1 : ℕ
update_rows_event_v1 = 24

abbrev pub delete_rows_event_v1 : ℕ
delete_rows_event_v1 = 25

abbrev pub heartbeat_log_event : ℕ
heartbeat_log_event = 27

abbrev pub write_rows_event : ℕ
write_rows_event = 30

abbrev pub update_rows_event : ℕ
update_rows_event = 31

abbrev pub delete_rows_event : ℕ
delete_rows_event = 32

abbrev pub gtid_log_event : ℕ
gtid_log_event = 33

abbrev pub previous_gtids_log_event : ℕ
previous_gtids_log_event = 35

abbrev pub enum_end_event : ℕ
enum_end_event = 39

-- `buf` is the packet from the event's first byte to the end of its memory.
pub record BasicEventInfo : Type 0 where
  pub type : ℕ
  pub log_pos : ℕ
  pub when : ℕ
  pub server_id : ℕ
  pub buf : Bytes
  pub event_len : ℕ

pub record RotateEventInfo : Type 0 where
  pub ident_len : ℕ
  pub new_log_ident : Bytes
  pub pos : ℕ

pub record QueryEventInfo : Type 0 where
  pub db_name : Bytes
  pub query : Bytes

pub record TableMapEventInfo : Type 0 where
  pub m_table_id : ℕ
  pub m_tblnam : Bytes
  pub m_dbnam : Bytes
  pub m_cols_types : Bytes

-- `m_rows_buf` is the memory from there on; `m_rows_end` is where `m_rows_tail` bytes are left of it.
pub record RowEventInfo : Type 0 where
  pub m_width : ℕ
  pub m_table_id : ℕ
  pub m_cols : Bytes
  pub m_cols_ai : Bytes
  pub m_rows_buf : Bytes
  pub m_rows_tail : ℕ
  pub has_after_image : Bool

pub record GtidEventInfo : Type 0 where
  pub m_sid : Bytes
  pub m_gno : ℤ
