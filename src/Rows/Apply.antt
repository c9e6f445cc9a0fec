-- ===== src/Rows/Apply.antt =====
-- slave_log_event.cpp: `do_writedelete_row`, `do_update_row`, `apply_row_event`.
use libslave.Common.{
  ℕ, zero, suc, Bool, Bytes, List, [], ◌∷◌, Outcome, ok, throws, fault, ltb, ◌==◌, ◌||◌,
  if◌then◌else◌, length, some, none, Option, not_processable_kind,
}
use libslave.Common.Effects.{M, ◌>>=◌, ◌>>◌, lift, pure, modify, when}
use libslave.Field.Unpack.{Platform}
use libslave.Event.Defs.{
  BasicEventInfo, RowEventInfo, write_rows_event_v1, update_rows_event_v1, delete_rows_event_v1,
  write_rows_event, update_rows_event, delete_rows_event,
}
use libslave.Table.Defs.{
  Table, RecordSet, RowType, map_rows, vector_rows, update, delete, write, EventKind, insert_kind,
  update_kind, delete_kind, should_process, full_name, RelayLogInfo, get_table_name_by_id,
  get_table,
}
use libslave.State.Defs.{State}
use libslave.State.Default
use libslave.Rows.Defs.{AnyRow, by_name, by_position, unpack_row}

-- The calls that leave the library, in order: on `ExtStateIface`, on the callback, on
-- `EventStatIface`.
pub data Call : Type 0 where
  inc_table_count : Bytes → Call
  set_last_filtered_update_time : Call
  callback : RecordSet → Call
  tick_modify_row_done tick_modify_event_done tick_modify_event_failed tick_modify_event_filtered
        tick_modify_event_ignored :
      (id : ℕ) → EventKind → Call

-- The calls so far, the last one first, and the user's `ExtStateIface`.
pub record Outside : Type 0 where
  pub calls : List Call
  pub ext_state : State

abbrev pub emit : Call → M Outside (Unit {0})
emit c = modify (λ w. record w { calls = c ∷ w.calls })

-- `ext_state.setLastFilteredUpdateTime()`, which reads the clock.
unfoldable pub call_set_update_time : Platform → Outside → Outside
unfolding Default.set_last_filtered_update_time
call_set_update_time c w = record w {
  calls = set_last_filtered_update_time ∷ w.calls;
  ext_state = Default.set_last_filtered_update_time (c.clock (length w.calls)) w.ext_state;
}

-- `Table::call_callback`
unfoldable pub call_callback : Platform → Table → RecordSet → M Outside (Unit {0})
unfolding full_name call_set_update_time
call_callback c table rs = do
  emit (inc_table_count (full_name table))
  modify (call_set_update_time c)
  emit (callback rs)
  lift (table.m_callback rs)

abbrev pub fresh_row : RowType → AnyRow
fresh_row map_rows = by_name []
fresh_row vector_rows = by_position []

abbrev pub with_row : RecordSet → AnyRow → RecordSet
with_row rs (by_name r) = record rs { m_row = r }
with_row rs (by_position r) = record rs { m_row_vec = r }

abbrev pub with_old_row : RecordSet → AnyRow → RecordSet
with_old_row rs (by_name r) = record rs { m_old_row = r }
with_old_row rs (by_position r) = record rs { m_old_row_vec = r }

abbrev pub blank : Table → BasicEventInfo → RecordSet
blank table bei = record {
  m_row = [];
  m_old_row = [];
  m_row_vec = [];
  m_old_row_vec = [];
  row_type = table.row_type;
  tbl_name = table.table_name;
  db_name = table.database_name;
  when = bei.when;
  type_event =
      if bei.type == write_rows_event_v1 || bei.type == write_rows_event then write else delete;
  master_id = bei.server_id;
}

module _ (c : Platform) where
  unfoldable pub do_writedelete_row :
      Table → BasicEventInfo → RowEventInfo → Bytes → M Outside Bytes
  unfolding unpack_row call_callback
  do_writedelete_row table bei roi row_start = do
    (row, t) ← lift (unpack_row c table (fresh_row table.row_type) roi.m_width row_start roi.m_cols)
    call_callback c table (with_row (blank table bei) row)
    pure t

  unfoldable pub do_update_row : Table → BasicEventInfo → RowEventInfo → Bytes → M Outside Bytes
  unfolding unpack_row call_callback
  do_update_row table bei roi row_start = do
    (old, t) ← lift (unpack_row c table (fresh_row table.row_type) roi.m_width row_start roi.m_cols)
    (new, t') ← lift (unpack_row c table (fresh_row table.row_type) roi.m_width t roi.m_cols_ai)
    call_callback c table
        (record (with_row (with_old_row (blank table bei) old) new) { type_event = update })
    pure t'

  unfoldable pub event_kind : ℕ → Outcome EventKind
  event_kind type =
      if type == write_rows_event_v1 || type == write_rows_event
      then ok insert_kind
      else if type == update_rows_event_v1 || type == update_rows_event
      then ok update_kind
      else if type == delete_rows_event_v1 || type == delete_rows_event
      then ok delete_kind
      else throws not_processable_kind

  abbrev pub note : Bool → Call → M Outside (Unit {0})
  note event_stat call = when event_stat (emit call)

  -- `catch (...) { tickModifyEventFailed; throw; }`
  abbrev pub on_throw : M Outside (Unit {0}) → Outcome Bytes × Outside → Outcome Bytes × Outside
  on_throw handler (ok t, s) = (ok t, s)
  on_throw handler (fault, s) = (fault, s)
  on_throw handler (throws e, s) = (throws e, (handler s).1)

  unfoldable pub do_row :
      Table → BasicEventInfo → RowEventInfo → EventKind → Bytes → M Outside Bytes
  unfolding do_writedelete_row do_update_row
  do_row table bei roi update_kind row_start = do_update_row table bei roi row_start
  do_row table bei roi insert_kind row_start = do_writedelete_row table bei roi row_start
  do_row table bei roi delete_kind row_start = do_writedelete_row table bei roi row_start

  -- The `try` block on one row.
  unfoldable pub try_row :
      Table → BasicEventInfo → RowEventInfo → EventKind → Bool → Bytes → M Outside Bytes
  unfolding do_row
  try_row table bei roi kind event_stat row_start s =
      on_throw (note event_stat (tick_modify_event_failed roi.m_table_id kind))
        (do_row table bei roi kind row_start s)

  -- The loop over the rows of an event; `none` is an exhausted fuel.
  unfoldable pub apply_rows :
      ℕ
      → Table
      → BasicEventInfo
      → RowEventInfo
      → EventKind
      → Bool
      → Bytes
      → M Outside (Option (Unit {0}))
  unfolding try_row
  apply_rows zero table bei roi kind event_stat row_start s = (ok none, s)
  apply_rows (suc fuel) table bei roi kind event_stat row_start s =
      if ltb roi.m_rows_tail (length row_start)
      then (try_row table bei roi kind event_stat row_start >>= (λ t.
            note event_stat (tick_modify_row_done roi.m_table_id kind)
            >>= (λ _ calls. apply_rows fuel table bei roi kind event_stat t calls)))
          s
      else (ok (some tt), s)

  unfoldable pub apply_to :
      Option Table
      → BasicEventInfo
      → RowEventInfo
      → EventKind
      → Bool
      → M Outside (Option (Unit {0}))
  unfolding apply_rows
  apply_to none bei roi kind event_stat = do
    note event_stat (tick_modify_event_ignored roi.m_table_id kind)
    pure (some tt)
  apply_to (some table) bei roi kind event_stat =
      if should_process table.m_filter kind
      then (do
        finished ←
            apply_rows (suc (length roi.m_rows_buf)) table bei roi kind event_stat roi.m_rows_buf
        note event_stat (tick_modify_event_done roi.m_table_id kind)
        pure finished)
      else do
        note event_stat (tick_modify_event_filtered roi.m_table_id kind)
        note event_stat (tick_modify_event_ignored roi.m_table_id kind)
        pure (some tt)

  unfoldable pub apply_row_event :
      RelayLogInfo → BasicEventInfo → RowEventInfo → Bool → M Outside (Option (Unit {0}))
  unfolding event_kind get_table_name_by_id get_table apply_to
  apply_row_event rli bei roi event_stat = do
    kind ← lift (event_kind bei.type)
    apply_to (get_table (get_table_name_by_id roi.m_table_id rli) rli) bei roi kind event_stat
