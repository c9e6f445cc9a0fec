-- ===== src/Slave/Synced.antt =====
-- The two copies of the position, `m_master_info.position` and the one in `ext_state`, over
-- `process_event`.
use libslave.Common.{◌≡◌, ◌==◌, ◌||◌, Outcome, some}
use libslave.Common.Effects.{
  ◌>>=◌, lift, get, modify, when, Keeps, Keeps-at, Keeps-bind, Keeps-if, Keeps-pure, Keeps-when,
  Keeps-lift, Keeps-modify, Keeps-get,
}
use libslave.Common.Int.{pos, leb_ℤ}
use libslave.State.Defs.{in_transaction}
use libslave.Field.Unpack.{Platform}
use libslave.Table.Defs.{Table, Key, RelayLogInfo}
use libslave.Event.Defs.{
  update_rows_event, update_rows_event_v1, BasicEventInfo, RowEventInfo, TableMapEventInfo,
  QueryEventInfo,
}
use libslave.Event.Headers.{query_event_info, row_event_info, table_map_event_info}
use libslave.Slave.Defs.{Slave, master_ge_56}
use libslave.Slave.Process.{
  Master, rebuild_table, process_query, process_table_map_event, process_rows, process_event,
  on_rli, apply_event, read_table, set_up, rebuild_from, on_query, process_query_from,
  process_rows_from, reset_known, reset_types, tell_listener, process_table_map, name_table,
  note_table, outside,
}
use libslave.Rows.Apply.{apply_row_event}
use libslave.Rows.Unmoved.{ResumesAt, apply_row_event-ResumesAt}
use libslave.Slave.Loop.{Session}

-- What `ext_state` would resume at is the position that the loop has reached.
unfoldable pub IsSynced : Slave → Type 0
IsSynced s = in_transaction s.ext_state.position s.ext_state.intransaction_pos ≡ s.position

unfoldable pub InSync : Session → Type 0
InSync s = IsSynced s.slave

-- What an event does besides leaves both copies alone.
rebuild_from-IsSynced :
    (blank : Table) (master : Master) (key : Key) (s : Slave)
    → Keeps IsSynced (rebuild_from blank master key s)
unfolding rebuild_from
rebuild_from-IsSynced blank master key s =
    Keeps-bind IsSynced (lift (read_table blank master key s)) (λ rli. modify (set_up key rli))
      (Keeps-lift IsSynced (read_table blank master key s))
      (λ rli. Keeps-modify IsSynced (set_up key rli) (λ t h. unfold IsSynced set_up in h))

rebuild_table-IsSynced :
    (blank : Table) (master : Master) (key : Key) → Keeps IsSynced (rebuild_table blank master key)
unfolding rebuild_table
rebuild_table-IsSynced blank master key =
    Keeps-bind IsSynced get (rebuild_from blank master key) (Keeps-get IsSynced)
      (rebuild_from-IsSynced blank master key)

on_query-IsSynced :
    (blank : Table) (master : Master) (s : Slave) (qei : QueryEventInfo)
    → Keeps IsSynced (on_query blank master s qei)
unfolding on_query
on_query-IsSynced blank master s qei =
    Keeps-when IsSynced _ _ (rebuild_table-IsSynced blank master _)

process_query_from-IsSynced :
    (blank : Table) (master : Master) (bei : BasicEventInfo) (c : Platform) (s : Slave)
    → Keeps IsSynced (process_query_from blank master bei c s)
unfolding process_query_from
process_query_from-IsSynced blank master bei c s =
    Keeps-bind IsSynced (lift (query_event_info c.wire bei.buf bei.event_len))
      (on_query blank master s) (Keeps-lift IsSynced _) (on_query-IsSynced blank master s)

process_query-IsSynced :
    (blank : Table) (master : Master) (bei : BasicEventInfo) (c : Platform)
    → Keeps IsSynced (process_query blank master bei c)
unfolding process_query
process_query-IsSynced blank master bei c =
    Keeps-bind IsSynced get (process_query_from blank master bei c) (Keeps-get IsSynced)
      (process_query_from-IsSynced blank master bei c)

apply_event-IsSynced :
    (bei : BasicEventInfo) (roi : RowEventInfo) (c : Platform)
    → Keeps IsSynced (apply_event bei roi c)
unfolding IsSynced Keeps apply_event
apply_event-IsSynced bei roi c s h =
    Keeps-at (ResumesAt s.position c) (apply_row_event c s.m_rli bei roi s.event_stat)
      (apply_row_event-ResumesAt s.position c bei roi s.m_rli s.event_stat) (outside s) h

process_rows_from-IsSynced :
    (bei : BasicEventInfo) (c : Platform) (s : Slave) → Keeps IsSynced (process_rows_from bei c s)
unfolding process_rows_from
process_rows_from-IsSynced bei c s =
    let do_update = bei.type == update_rows_event_v1 || bei.type == update_rows_event in
    Keeps-bind IsSynced
      (lift (row_event_info c.wire bei.buf bei.event_len do_update (master_ge_56 s)))
      (λ roi. apply_event bei roi c) (Keeps-lift IsSynced _) (λ roi. apply_event-IsSynced bei roi c)

process_rows-IsSynced : (bei : BasicEventInfo) (c : Platform) → Keeps IsSynced (process_rows bei c)
unfolding process_rows
process_rows-IsSynced bei c =
    Keeps-bind IsSynced get (process_rows_from bei c) (Keeps-get IsSynced)
      (process_rows_from-IsSynced bei c)

on_rli-IsSynced : (f : RelayLogInfo → RelayLogInfo × Outcome (Unit {0})) → Keeps IsSynced (on_rli f)
unfolding IsSynced Keeps
on_rli-IsSynced f s h = h

reset_types-IsSynced : (tmi : TableMapEventInfo) (s : Slave) → Keeps IsSynced (reset_types tmi s)
unfolding reset_types
reset_types-IsSynced tmi s =
    Keeps-when IsSynced (leb_ℤ (pos 50604) s.m_master_version) (on_rli (reset_known tmi))
      (on_rli-IsSynced (reset_known tmi))

process_table_map-IsSynced :
    (tmi : TableMapEventInfo) (s : Slave) → Keeps IsSynced (process_table_map tmi s)
unfolding process_table_map
process_table_map-IsSynced tmi s =
    Keeps-bind IsSynced (reset_types tmi s) (λ _. when s.event_stat (modify (tell_listener tmi)))
      (reset_types-IsSynced tmi s)
      (λ _.
        Keeps-when IsSynced s.event_stat (modify (tell_listener tmi))
          (Keeps-modify IsSynced (tell_listener tmi) (λ t h. unfold IsSynced tell_listener in h)))

note_table-IsSynced : (tmi : TableMapEventInfo) → Keeps IsSynced (note_table tmi)
unfolding note_table
note_table-IsSynced tmi =
    Keeps-bind IsSynced (modify (name_table tmi)) (λ _. get >>= process_table_map tmi)
      (Keeps-modify IsSynced (name_table tmi) (λ s h. unfold IsSynced name_table in h))
      (λ _.
        Keeps-bind IsSynced get (process_table_map tmi) (Keeps-get IsSynced)
          (process_table_map-IsSynced tmi))

process_table_map_event-IsSynced :
    (bei : BasicEventInfo) (c : Platform) → Keeps IsSynced (process_table_map_event bei c)
unfolding process_table_map_event
process_table_map_event-IsSynced bei c =
    Keeps-bind IsSynced (lift (table_map_event_info c.wire bei.buf bei.event_len)) note_table
      (Keeps-lift IsSynced _) note_table-IsSynced

pub process_event-IsSynced :
    (blank : Table) (master : Master) (c : Platform) (bei : BasicEventInfo)
    → Keeps IsSynced (process_event blank master c bei)
unfolding process_event
process_event-IsSynced blank master c bei =
    Keeps-if IsSynced _ _ _
      (Keeps-bind IsSynced (process_query blank master bei c) _
        (process_query-IsSynced blank master bei c) (λ _. Keeps-pure IsSynced (some tt)))
      (Keeps-if IsSynced _ _ _
        (Keeps-bind IsSynced (process_table_map_event bei c) _
          (process_table_map_event-IsSynced bei c) (λ _. Keeps-pure IsSynced (some tt)))
        (Keeps-if IsSynced _ _ _ (process_rows-IsSynced bei c) (Keeps-pure IsSynced (some tt))))
