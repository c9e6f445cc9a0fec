-- ===== src/Slave/Deliveries.antt =====
-- A table map event and a rows event of two rows, on an object that knows the table.
use libslave.Common.{
  ℕ, ◌≡◌, false, refl, Bytes, List, [], ◌∷◌, ◌++◌, some, Option, Outcome, codes, arith,
}
use libslave.Wire.{le_bytes}
use libslave.Wire.Laws.{plain}
use libslave.Field.Examples.{sample}
use libslave.Event.Defs.{BasicEventInfo, TableMapEventInfo, RowEventInfo}
use libslave.Event.Headers.{table_map_event_info, row_event_info}
use libslave.Event.TableMap.{body}
use libslave.Table.Defs.{RecordSet, insert_kind, get_table, should_process}
use libslave.Common.Maps.{insert}
use libslave.Rows.Defs.{unpack_row}
use libslave.Rows.Apply.{event_kind, with_row, blank, Outside}
use libslave.Rows.Delivery.{HoldsRows, deliver, done}
use libslave.Rows.Examples.{people, number}
use libslave.Slave.Defs.{Slave, master_ge_56}
use libslave.Slave.Process.{process_event, outside}
use libslave.Slave.Examples.{start, nobody}
use libslave.Slave.Delivered.{process_event-deliver}

abbrev four : Bytes
unfolding le_bytes
four = le_bytes 4 4000000000

abbrev slave : Slave
slave = record (start.slave) {
  m_rli = record {
    m_map_table_name = [];
    m_table_map = ((codes "db", codes "people"), people) ∷ [];
  };
}

abbrev header : ℕ → Bytes
header type = 10 ∷ 0 ∷ 0 ∷ 0 ∷ type ∷ 1 ∷ 0 ∷ 0 ∷ 0 ∷ 50 ∷ 0 ∷ 0 ∷ 0 ∷ 9 ∷ 0 ∷ 0 ∷ 0 ∷ 0 ∷ 0 ∷ []

abbrev event : ℕ → Bytes → BasicEventInfo
event type behind = record {
  type = type;
  log_pos = 9;
  when = 10;
  server_id = 1;
  buf = header type ++ behind;
  event_len = 39;
}

abbrev mapped : BasicEventInfo
unfolding le_bytes
mapped =
    event 19 (
      le_bytes 6 12 ++ (1 ∷ 0 ∷ [] ++ body (codes "db") (codes "people") (3 ∷ 3 ∷ 3 ∷ []) (0 ∷ [])))

abbrev tmi : TableMapEventInfo
tmi = record {
  m_table_id = 12;
  m_tblnam = codes "people";
  m_dbnam = codes "db";
  m_cols_types = 3 ∷ 3 ∷ 3 ∷ [];
}

abbrev written : BasicEventInfo
unfolding le_bytes four
written = event 23 (le_bytes 6 12 ++ (1 ∷ 0 ∷ [] ++ (3 ∷ 1 ∷ 0 ∷ four ++ (0 ∷ four))))

abbrev roi : RowEventInfo
unfolding le_bytes four
roi = record {
  m_width = 3;
  m_table_id = 12;
  m_cols = 1 ∷ [];
  m_cols_ai = [];
  m_rows_buf = 0 ∷ four ++ (0 ∷ four);
  m_rows_tail = 0;
  has_after_image = false;
}

abbrev sets : List RecordSet
sets = with_row (blank people written) number ∷ with_row (blank people written) number ∷ []

abbrev after : Slave
unfolding process_event mapped
after = (process_event people nobody sample mapped slave).1

held : HoldsRows sample people written roi insert_kind roi.m_rows_buf sets
unfolding unpack_row insert roi written plain le_bytes four
held = (
  omega arith,
  (
    0 ∷ four,
    (
      (number, (refl, refl)),
      (omega arith, (omega arith, ([], ((number, (refl, refl)), (omega arith, omega arith))))),
    ),
  ),
)

abbrev delivered : Outcome (Option (Unit {0})) × Outside
delivered =
    done sample people written roi insert_kind after.event_stat
      (deliver sample people written roi insert_kind after.event_stat sets (outside after))

process_event-deliver_example :
    process_event people nobody sample written after
    ≡ (delivered.0, record after { calls = delivered.1.calls; ext_state = delivered.1.ext_state })
unfolding after mapped written roi event_kind get_table should_process process_event plain
    table_map_event_info row_event_info master_ge_56 le_bytes four
process_event-deliver_example =
    process_event-deliver people nobody sample mapped written tmi roi slave after (some tt) people
      insert_kind sets refl refl refl refl refl refl refl refl (omega arith) refl held
