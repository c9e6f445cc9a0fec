-- ===== src/Slave/Examples.antt =====
-- A connection, and a short transaction on it: a packet with a GTID event, then one with an XID; and
-- two queries.
use libslave.Common.{
  ℕ, ◌≡◌, refl, Bytes, List, [], ◌∷◌, ◌++◌, ok, some, none, codes, true, false, throws,
  query_failed,
}
use libslave.Common.Int.{pos}
use libslave.Common.Maps.{string_eq, name_eq}
use libslave.State.Defs.{initial}
use libslave.Field.Examples.{sample}
use libslave.Wire.Laws.{plain}
use libslave.Rows.Examples.{people}
use libslave.Slave.Process.{Master}
use libslave.Slave.Checks.{unknown_variable}
use libslave.Slave.Query.{check_alter_or_create_query}
use libslave.Slave.Altered.{check_alter_or_create_query-table}
use libslave.Slave.Missed.{check_alter_or_create_query-return}
use libslave.Slave.Requests.{request_dump}
use libslave.Slave.Loop.{Session, no_gtid}
use libslave.Slave.Connect.{Connection, connected, Turn, run}
use libslave.Slave.Synced.{InSync}
use libslave.Position.Defs.{empty}
use libslave.Slave.Kept.{connected-kept}
use libslave.Slave.Resume.{connected-InSync, run-InSync}

abbrev pub start : Session
start = record {
  slave = record {
    m_server_id = 7;
    m_master_version = pos 50500;
    m_gtid_enabled = false;
    position = record { log_name = []; log_pos = 0; gtid_executed = [] };
    checksum_alg = 0;
    is_old_storage = true;
    gtid_mode = false;
    ext_state = initial;
    event_stat = false;
    m_settings = [];
    m_xid_callback = some (λ id. ok tt);
    m_rli = record { m_map_table_name = []; m_table_map = [] };
    ticks = [];
    calls = [];
    notices = [];
  };
  gtid_next = no_gtid;
}

abbrev pub here : Connection
here = record {
  connecting = 100;
  retries = 101 ∷ [];
  handshake = unknown_variable;
  master_status = ((codes "File", codes "bin.7") ∷ (codes "Position", codes "120") ∷ []) ∷ [];
  refuses = false;
}

abbrev pub find_type : Bytes → ℕ
find_type name = 1

abbrev pub nobody : Master
nobody = record { collate_map = throws query_failed; columns = λ key. throws query_failed }

abbrev pub crc : ℕ → Bytes → ℕ
crc sum p = 0

-- A header of 19 bytes: the time, the type, the master, the length, the place of the next event.
abbrev header : ℕ → ℕ → ℕ → Bytes
header type len next =
    10 ∷ 0 ∷ 0 ∷ 0 ∷ type ∷ 1 ∷ 0 ∷ 0 ∷ 0 ∷ len ∷ 0 ∷ 0 ∷ 0 ∷ next ∷ 0 ∷ 0 ∷ 0 ∷ 0 ∷ 0 ∷ []

abbrev pub xid_packet : Bytes
xid_packet = 0 ∷ header 16 27 200 ++ (1 ∷ 2 ∷ 3 ∷ 4 ∷ 5 ∷ 6 ∷ 7 ∷ 8 ∷ [])

abbrev pub gtid_packet : Bytes
gtid_packet =
    0 ∷ header 33 44 160
    ++ (1 ∷ 1 ∷ 2 ∷ 3 ∷ 4 ∷ 5 ∷ 6 ∷ 7 ∷ 8 ∷ 9 ∷ 10 ∷ 11 ∷ 12 ∷ 13 ∷ 14 ∷ 15 ∷ 16 ∷ 9 ∷ 0 ∷ 0 ∷ 0 ∷ 0
        ∷ 0 ∷ 0 ∷ 0 ∷ [])

abbrev pub turns : List Turn
turns =
    record { now = 50; reply = some gtid_packet; connection = here }
    ∷ record { now = 51; reply = some xid_packet; connection = here }
    ∷ record { now = 52; reply = none; connection = here }
    ∷ []

abbrev request : Bytes
request = 120 ∷ 0 ∷ 0 ∷ 0 ∷ 0 ∷ 0 ∷ 7 ∷ 0 ∷ 0 ∷ 0 ∷ codes "bin.7"

abbrev begun : Session
unfolding connected
begun = (connected find_type sample here start).1

connects : connected find_type sample here start ≡ (ok request, begun)
unfolding connected begun plain
connects = refl

abbrev stopped : Session
unfolding run
stopped = (run people nobody sample crc find_type turns begun).1

runs : run people nobody sample crc find_type turns begun ≡ (ok (some tt), stopped)
unfolding run stopped plain
runs = refl

begun-InSync : InSync begun
begun-InSync = (connected-InSync find_type sample here start begun request connects).0

run-InSync_example : InSync stopped
run-InSync_example =
    run-InSync people nobody sample crc find_type turns begun stopped (some tt) begun-InSync runs

-- "alter table people drop x"
check_alter_or_create_query-table_example :
    check_alter_or_create_query (codes "alter table " ++ (codes "people" ++ codes " drop x"))
    ≡ codes "people"
check_alter_or_create_query-table_example =
    check_alter_or_create_query-table (codes "people") (codes " drop x") (λ e. cc)
      (refl, (refl, (refl, (refl, (refl, (refl, tt)))))) refl
      (refl, (refl, (refl, (refl, (refl, (refl, (refl, tt)))))))

-- "alter table people drop", and "x" on the next line.
check_alter_or_create_query-return_example :
    check_alter_or_create_query
      (codes "alter table " ++ (codes "people" ++ (32 ∷ codes "drop" ++ (13 ∷ 10 ∷ codes "x"))))
    ≡ []
check_alter_or_create_query-return_example =
    check_alter_or_create_query-return (codes "people") 32 (codes "drop") (10 ∷ codes "x") (λ e. cc)
      (refl, (refl, (refl, (refl, (refl, (refl, tt)))))) refl refl
      (refl, (refl, (refl, (refl, tt))))

abbrev again : Session
unfolding connected begun
again = (connected find_type sample here begun).1

connects_again : connected find_type sample here begun ≡ (ok request, again)
unfolding connected begun again plain
connects_again = refl

begun-filled : empty begun.slave.ext_state.position ≡ false
unfolding begun empty
begun-filled = refl

connected-kept_example :
    (again.slave.position ≡ begun.slave.position)
    × (request_dump sample.wire again.slave.m_gtid_enabled again.slave.m_server_id
          begun.slave.position
        ≡ ok request)
connected-kept_example =
    connected-kept find_type sample here begun again request begun-InSync begun-filled
      connects_again
