-- ===== src/Slave/Delivered.antt =====
-- Slave.cpp: a table map event, and the rows event that follows it, through `process_event`.
use libslave.Common.{
  ℕ, ◌^◌, ◌<◌, ◌≡◌, refl, ap, sym, ◌∙◌, arith, true, false, List, ok, some, Option, ◌==◌, ◌||◌,
  if◌then◌else◌,
}
use libslave.Common.Effects.{
  ◌>>=◌, modify, Keeps, Keeps-at, Keeps-bind, Keeps-when, Keeps-modify, bind_ok, pure,
}
use libslave.Common.Int.{pos, leb_ℤ}
use libslave.Field.Unpack.{Platform}
use libslave.Event.Defs.{
  BasicEventInfo, TableMapEventInfo, RowEventInfo, query_event, table_map_event,
  update_rows_event_v1, update_rows_event,
}
use libslave.Event.Headers.{table_map_event_info, row_event_info}
use libslave.Event.Read.{is_rows_event}
use libslave.Table.Defs.{
  Table, Key, RelayLogInfo, RecordSet, EventKind, get_table, get_table_name_by_id, should_process,
}
use libslave.Table.Names.{get_table_name_by_id-set_table_name}
use libslave.Rows.Apply.{event_kind}
use libslave.Rows.Delivery.{HoldsRows, deliver, done, apply_row_event-deliver}
use libslave.Slave.Defs.{Slave, master_ge_56}
use libslave.Slave.Process.{
  Master, process_event, process_table_map_event, note_table, name_table, process_table_map,
  reset_types, reset_known, on_rli, tell_listener, process_rows, process_rows_from, apply_event,
  outside, left,
}

-- The names of tables by id.
abbrev Names : List (ℕ × Key) → Slave → Type 0
Names names s = s.m_rli.m_map_table_name ≡ names

reset_known-names :
    (tmi : TableMapEventInfo) (rli : RelayLogInfo)
    → (reset_known tmi rli).0.m_map_table_name ≡ rli.m_map_table_name
unfolding reset_known
reset_known-names tmi rli = ground arith

process_table_map-Names :
    (names : List (ℕ × Key)) (tmi : TableMapEventInfo) (s : Slave)
    → Keeps (Names names) (process_table_map tmi s)
unfolding process_table_map reset_types
process_table_map-Names names tmi s =
    Keeps-bind (Names names) (reset_types tmi s) _
      (Keeps-when (Names names) (leb_ℤ (pos 50604) s.m_master_version) (on_rli (reset_known tmi))
        (unfold Keeps in λ t h. reset_known-names tmi t.m_rli ∙ h))
      (λ _.
        Keeps-when (Names names) s.event_stat (modify (tell_listener tmi))
          (Keeps-modify (Names names) (tell_listener tmi) (λ t h. unfold tell_listener in h)))

note_table-names :
    (tmi : TableMapEventInfo) (s : Slave)
    → (note_table tmi s).1.m_rli.m_map_table_name ≡ (name_table tmi s).m_rli.m_map_table_name
unfolding note_table
note_table-names tmi s =
    Keeps-at (Names (name_table tmi s).m_rli.m_map_table_name)
      (process_table_map tmi (name_table tmi s))
      (process_table_map-Names (name_table tmi s).m_rli.m_map_table_name tmi (name_table tmi s))
      (name_table tmi s) refl

by_names :
    (id : ℕ) (r r' : RelayLogInfo)
    → r.m_map_table_name ≡ r'.m_map_table_name
    → get_table_name_by_id id r ≡ get_table_name_by_id id r'
unfolding get_table_name_by_id
by_names id r r' e = rw e

itself : (id : ℕ) (a b : Key) → (if id == id then a else b) ≡ a
itself id a b = ground arith

-- A table map event names its table under its id, for an id that an `int` holds.
note_table-named :
    (tmi : TableMapEventInfo) (s : Slave)
    → tmi.m_table_id < 2 ^ 31
    → get_table_name_by_id tmi.m_table_id (note_table tmi s).1.m_rli ≡ (tmi.m_dbnam, tmi.m_tblnam)
unfolding name_table
note_table-named tmi s small =
    by_names tmi.m_table_id (note_table tmi s).1.m_rli (name_table tmi s).m_rli
      (note_table-names tmi s)
    ∙ get_table_name_by_id-set_table_name tmi.m_table_id tmi.m_table_id tmi.m_tblnam tmi.m_dbnam
        s.m_rli small small
    ∙ itself tmi.m_table_id (tmi.m_dbnam, tmi.m_tblnam)
        (get_table_name_by_id tmi.m_table_id s.m_rli)

module _ (blank : Table) (master : Master) (c : Platform) where
  table_map-noted :
      (bei : BasicEventInfo) (tmi : TableMapEventInfo) (s : Slave)
      → bei.type ≡ table_map_event
      → table_map_event_info c.wire bei.buf bei.event_len ≡ ok tmi
      → process_event blank master c bei s ≡ (note_table tmi >>= (λ _. pure (some tt))) s
  unfolding process_event process_table_map_event
  table_map-noted bei tmi s type parsed =
      let other : (bei.type == query_event) ≡ false = ground arith in
      let map : (bei.type == table_map_event) ≡ true = ground arith in rw (other, map, parsed)

  table_map-event :
      (bei : BasicEventInfo) (tmi : TableMapEventInfo) (s t : Slave) (u : Option (Unit {0}))
      → bei.type ≡ table_map_event
      → table_map_event_info c.wire bei.buf bei.event_len ≡ ok tmi
      → process_event blank master c bei s ≡ (ok u, t)
      → (note_table tmi s).1 ≡ t
  table_map-event bei tmi s t u type parsed h =
      let (v, r, noted, ended) =
        bind_ok (note_table tmi) (λ _. pure (some tt)) s t u
          (sym (table_map-noted bei tmi s type parsed) ∙ h) in
      ap (λ x. x.1) noted ∙ ap (λ x. x.1) ended

  rows-event :
      (bei : BasicEventInfo) (roi : RowEventInfo) (t : Slave)
      → is_rows_event bei.type ≡ true
      → row_event_info c.wire bei.buf bei.event_len
          (bei.type == update_rows_event_v1 || bei.type == update_rows_event)
          (master_ge_56 t)
        ≡ ok roi
      → process_event blank master c bei t ≡ apply_event bei roi c t
  unfolding process_event process_rows process_rows_from
  rows-event bei roi t type parsed =
      let other : (bei.type == query_event) ≡ false = ground arith in
      let rows : (bei.type == table_map_event) ≡ false = ground arith in
      rw (other, rows, type, parsed)

  -- Where a table map event is processed, and its id fits an `int` and names a table of the relay log
  -- information whose filter lets the rows event behind it through, the rows of that event are handed
  -- to the callback of this table in their order, up to its first exception. The object changes in two
  -- members: the record of these calls, and the time of the last update in `ext_state`, which each row
  -- that is handed over sets.
  pub process_event-deliver :
      (mapped rows : BasicEventInfo) (tmi : TableMapEventInfo) (roi : RowEventInfo) (s t : Slave)
      (u : Option (Unit {0})) (table : Table) (kind : EventKind) (sets : List RecordSet)
      → mapped.type ≡ table_map_event
      → table_map_event_info c.wire mapped.buf mapped.event_len ≡ ok tmi
      → process_event blank master c mapped s ≡ (ok u, t)
      → get_table (tmi.m_dbnam, tmi.m_tblnam) t.m_rli ≡ some table
      → event_kind c rows.type ≡ ok kind
      → is_rows_event rows.type ≡ true
      → row_event_info c.wire rows.buf rows.event_len
          (rows.type == update_rows_event_v1 || rows.type == update_rows_event)
          (master_ge_56 t)
        ≡ ok roi
      → roi.m_table_id ≡ tmi.m_table_id
      → tmi.m_table_id < 2 ^ 31
      → should_process table.m_filter kind ≡ true
      → HoldsRows c table rows roi kind roi.m_rows_buf sets
      → let (r, w) =
          done c table rows roi kind t.event_stat
            (deliver c table rows roi kind t.event_stat sets (outside t)) in
        process_event blank master c rows t
        ≡ (r, record t { calls = w.calls; ext_state = w.ext_state })
  process_event-deliver mapped rows tmi roi s t u table kind sets type parsed ran found of is_rows
        parsed_rows same small passes held =
      let after = table_map-event mapped tmi s t u type parsed ran in
      let named : get_table_name_by_id roi.m_table_id t.m_rli ≡ (tmi.m_dbnam, tmi.m_tblnam) =
        rw (same, ← after) (note_table-named tmi s small) in
      let known : get_table (get_table_name_by_id roi.m_table_id t.m_rli) t.m_rli ≡ some table =
        rw named found in
      rows-event rows roi t is_rows parsed_rows
      ∙ (unfold apply_event in
          ap (λ x. (x.0, left x.1 t))
            (apply_row_event-deliver c table rows roi t.m_rli kind t.event_stat sets (outside t) of
              known passes held))
