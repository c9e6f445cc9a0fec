-- ===== src/Event/Examples.antt =====
-- An XID event with a checksum, a table map event and a rows event.
use libslave.Common.{
  ℕ, ◌+◌, ◌-◌, ◌≡◌, refl, inl, fault, replicate, Bytes, [], ◌∷◌, ok, true, false, take, drop, arith,
  ◌++◌, codes,
}
use libslave.Wire.{le, le_bytes}
use libslave.Wire.Laws.{plain, plain-IsLittleEndian}
use libslave.Event.Headers.{table_map_event_info, row_event_info}
use libslave.Event.RowsEvent.{parsed, row_event_info-parsed}
use libslave.Event.TableMap.{body, table_map_event_info-table_map}
use libslave.Event.Defs.{BasicEventInfo}
use libslave.Event.Read.{ReadState, check_format_description, read_log_event, tick, tick_xid}
use libslave.Event.Accepted.{read_log_event-checksum}
use libslave.Event.Short.{check_format_description-fault}
use libslave.Event.Safe.{read_log_event-Safe}
use libslave.Event.Calls.{Safe, Anything}

-- A sum that stands for the checksum.
abbrev sum_of : ℕ → Bytes → ℕ
sum_of start [] = start
sum_of start (b ∷ p) = sum_of (start + b) p

abbrev event : Bytes
event =
    10
    ∷ 0
    ∷ 0
    ∷ 0
    ∷ 16
    ∷ 1
    ∷ 0
    ∷ 0
    ∷ 0
    ∷ 31
    ∷ 0
    ∷ 0
    ∷ 0
    ∷ 200
    ∷ 0
    ∷ 0
    ∷ 0
    ∷ 0
    ∷ 0
    ∷ 1
    ∷ 2
    ∷ 3
    ∷ 4
    ∷ 5
    ∷ 6
    ∷ 7
    ∷ 8
    ∷ (38 ∷ 1 ∷ 0 ∷ 0 ∷ [])

abbrev before : ReadState
before = record { checksum_alg = 1; ticks = [] }

abbrev behind : ReadState
behind = record { checksum_alg = 1; ticks = tick_xid ∷ tick 10 ∷ [] }

abbrev xid : BasicEventInfo
xid = record { type = 16; log_pos = 200; when = 10; server_id = 1; buf = event; event_len = 27 }

reads : read_log_event plain sum_of event 31 true true before ≡ (ok (xid, true), behind)
unfolding read_log_event plain
reads = refl

read_log_event-checksum_example :
    (le 4 (drop (31 - 4) event) ≡ sum_of (sum_of 0 []) (take (31 - 4) event))
    × (xid.event_len ≡ 31 - 4)
read_log_event-checksum_example =
    read_log_event-checksum plain sum_of event 31 true true true xid before behind reads refl

read_log_event-Safe_example :
    Safe Anything (read_log_event plain sum_of event 31 true true before).0
unfolding le
read_log_event-Safe_example =
    read_log_event-Safe plain sum_of event 31 (omega arith) true true before (inl refl)

abbrev header : Bytes
header = 10 ∷ 0 ∷ 0 ∷ 0 ∷ 19 ∷ 1 ∷ 0 ∷ 0 ∷ 0 ∷ 60 ∷ 0 ∷ 0 ∷ 0 ∷ 200 ∷ 0 ∷ 0 ∷ 0 ∷ 0 ∷ 0 ∷ []

abbrev flags : Bytes
flags = 1 ∷ 0 ∷ []

abbrev types : Bytes
types = 3 ∷ 15 ∷ 12 ∷ []

table_map_event_info-table_map_example :
    table_map_event_info plain
      (header ++ (le_bytes 6 70000 ++ (flags ++ body (codes "db") (codes "people") types (0 ∷ []))))
      60
    ≡ ok (record {
      m_table_id = 70000;
      m_tblnam = codes "people";
      m_dbnam = codes "db";
      m_cols_types = types;
    })
table_map_event_info-table_map_example =
    table_map_event_info-table_map plain plain-IsLittleEndian header flags (codes "db")
      (codes "people") types (0 ∷ []) 70000 60 (omega arith) refl refl (omega arith) (omega arith)

-- An update of one row of three columns, two of which the event has.
row_event_info-parsed_example :
    row_event_info plain
      (header
        ++ (le_bytes 6 70000
            ++ (1 ∷ 0 ∷ 2 ∷ 0 ∷ [] ++ (3 ∷ (5 ∷ []) ++ ((4 ∷ []) ++ (0 ∷ 9 ∷ 0 ∷ 8 ∷ []))))))
      60
      true
      true
    ≡ ok (
        parsed plain plain-IsLittleEndian header
          (1 ∷ 0 ∷ 2 ∷ 0 ∷ [])
          (5 ∷ [])
          (4 ∷ [])
          (0 ∷ 9 ∷ 0 ∷ 8 ∷ [])
          70000
          3
          true
          60)
row_event_info-parsed_example =
    row_event_info-parsed plain plain-IsLittleEndian header (1 ∷ 0 ∷ 2 ∷ 0 ∷ []) (5 ∷ []) (4 ∷ [])
      (0 ∷ 9 ∷ 0 ∷ 8 ∷ []) 70000 3 60 true true (omega arith) refl refl (omega arith) refl refl
      (omega arith)

-- Version 4 at byte 19, and headers of 19 bytes; 27 lengths of types.
abbrev old_master : Bytes
old_master = replicate 19 0 ++ (4 ∷ 0 ∷ [] ++ (replicate 54 0 ++ (19 ∷ replicate 27 8)))

check_format_description-fault_example : check_format_description old_master 103 false ≡ fault
unfolding le
check_format_description-fault_example =
    check_format_description-fault old_master 103 false refl refl (omega arith) (omega arith)
      (omega arith)
