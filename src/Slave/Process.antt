-- ===== src/Slave/Process.antt =====
-- Slave.cpp: `process_event`.
use libslave.Common.{
  ℕ, Bool, true, false, not, ◌&&◌, ◌||◌, ◌==◌, Bytes, List, [], ◌∷◌, Outcome, ok, throws, fault,
  if◌then◌else◌, some, none, Option, length,
}
use libslave.Common.Int.{pos, leb_ℤ}
use libslave.Common.Maps.{lookup, insert, name_eq}
use libslave.Common.{◌>>=◌ as bind_outcome}
use libslave.Common.Effects.{M, ◌>>=◌, ◌>>◌, lift, pure, get, modify, when}
use libslave.Position.Defs.{is_nil}
use libslave.Field.Defs.{Field, Kind, Storage, timestamp, datetime, time}
use libslave.Field.Temporal.{reset_timestamp, reset_datetime, reset_time}
use libslave.Field.Unpack.{Platform}
use libslave.Event.Defs.{
  BasicEventInfo, TableMapEventInfo, QueryEventInfo, RowEventInfo, query_event, table_map_event,
  update_rows_event, update_rows_event_v1,
}
use libslave.Event.Headers.{query_event_info, table_map_event_info, row_event_info}
use libslave.Event.Read.{is_rows_event}
use libslave.Table.Defs.{Table, Key, RelayLogInfo, set_table_name, get_table}
use libslave.Rows.Apply.{Outside, apply_row_event}
use libslave.Slave.Query.{check_alter_or_create_query}
use libslave.Slave.Schema.{create_table, CollateMap, SqlRow}
use libslave.Slave.Defs.{Slave, Settings, table_mapped, master_ge_56, configure, apply_settings}

abbrev with_kind : Field → (Storage → Kind) → Outcome Storage → Outcome Field
with_kind f make (ok s) = ok (record f { kind = make s })
with_kind f make (throws e) = throws e
with_kind f make fault = fault

abbrev reset_kind : Bool → Field → Kind → Outcome Field
unfolding reset_timestamp reset_datetime reset_time
reset_kind old f (timestamp s) = with_kind f timestamp (reset_timestamp f.field_type s old false)
reset_kind old f (datetime s) = with_kind f datetime (reset_datetime f.field_type s old false)
reset_kind old f (time s) = with_kind f time (reset_time f.field_type s old false)
reset_kind old f other = fault

-- The virtual `reset` of the column's class. The cast to `Field_temporal` is not checked.
unfoldable pub reset_field : Bool → Field → Outcome Field
unfolding reset_timestamp reset_datetime reset_time
reset_field old f = reset_kind old f f.kind

-- The `switch` over a column's type in the table map.
abbrev reset_column : ℕ → Field → Outcome Field
unfolding reset_field
reset_column type f =
    if type == 7 || (type == 12 || type == 11)
    then reset_field true f
    else if type == 17 || (type == 18 || type == 19)
    then reset_field false f
    else ok f

abbrev after_reset :
    List Field × Outcome (Unit {0})
    → Field
    → List Field
    → Outcome Field
    → List Field × Outcome (Unit {0})
after_reset (fields', r) f fields (ok f') = (f' ∷ fields', r)
after_reset rest f fields (throws e) = (f ∷ fields, throws e)
after_reset rest f fields fault = (f ∷ fields, fault)

-- The loop over the columns: those in front of an exception stay reset.
unfoldable pub reset_columns : Bytes → List Field → List Field × Outcome (Unit {0})
unfolding reset_field
reset_columns [] fields = (fields, ok tt)
reset_columns (type ∷ types) [] = ([], ok tt)
reset_columns (type ∷ types) (f ∷ fields) =
    after_reset (reset_columns types fields) f fields (reset_column type f)

-- What the master answers on its collations and on a table.
pub record Master : Type 0 where
  pub collate_map : Outcome CollateMap
  pub columns : Key → Outcome (List SqlRow)

abbrev replace_table : Key → (Table → Table) → RelayLogInfo → RelayLogInfo
unfolding lookup insert
replace_table key f rli = elim (lookup key rli.m_table_map) [
  | none ↦ rli
  | some t ↦ record rli { m_table_map = insert key (f t) rli.m_table_map }
]

-- The table that a query has changed is read again, and set up as `setCallback` asked.
unfoldable pub read_table : Table → Master → Key → Slave → Outcome RelayLogInfo
unfolding create_table
read_table blank master key s = bind_outcome master.collate_map λ collations.
    bind_outcome (master.columns key)
      λ rows. create_table blank s.is_old_storage s.m_rli key collations rows

unfoldable pub set_up : Key → RelayLogInfo → Slave → Slave
unfolding lookup insert apply_settings
set_up key rli s = record s { m_rli = replace_table key (configure s.m_settings key) rli }

unfoldable pub rebuild_from : Table → Master → Key → Slave → M Slave (Unit {0})
unfolding read_table set_up
rebuild_from blank master key s =
    lift (read_table blank master key s) >>= (λ rli. modify (set_up key rli))

unfoldable pub rebuild_table : Table → Master → Key → M Slave (Unit {0})
unfolding rebuild_from
rebuild_table blank master key = get >>= rebuild_from blank master key

-- `m_table_order.count(key) == 1`
abbrev is_known : Key → List (Key × Settings) → Bool
unfolding lookup
is_known key settings = elim (lookup key settings) [ none ↦ false | some c ↦ true ]

unfoldable pub on_query : Table → Master → Slave → QueryEventInfo → M Slave (Unit {0})
unfolding rebuild_table lookup
on_query blank master s qei =
    let tbl_name = check_alter_or_create_query qei.query in
    let key : Key = (qei.db_name, tbl_name) in
    when (not (is_nil tbl_name) && is_known key s.m_settings) (rebuild_table blank master key)

unfoldable pub process_query_from :
    Table → Master → BasicEventInfo → Platform → Slave → M Slave (Unit {0})
unfolding on_query query_event_info
process_query_from blank master bei c s =
    lift (query_event_info c.wire bei.buf bei.event_len) >>= on_query blank master s

unfoldable pub process_query : Table → Master → BasicEventInfo → Platform → M Slave (Unit {0})
unfolding process_query_from
process_query blank master bei c = get >>= process_query_from blank master bei c

-- Columns are matched to the master's types only where their numbers agree.
abbrev reset_table : TableMapEventInfo → Table → RelayLogInfo → RelayLogInfo × Outcome (Unit {0})
unfolding reset_columns insert
reset_table tmi t rli =
    let (fields, r) = reset_columns tmi.m_cols_types t.fields in
    if length tmi.m_cols_types == length t.fields
    then (
      record rli {
        m_table_map =
            insert (tmi.m_dbnam, tmi.m_tblnam) (record t { fields = fields }) rli.m_table_map;
      },
      r,
    )
    else (rli, ok tt)

unfoldable pub reset_known : TableMapEventInfo → RelayLogInfo → RelayLogInfo × Outcome (Unit {0})
unfolding reset_columns insert get_table
reset_known tmi rli = elim (get_table (tmi.m_dbnam, tmi.m_tblnam) rli) [
  | none ↦ (rli, ok tt)
  | some t ↦ reset_table tmi t rli
]

-- A call on the member `m_rli`.
abbrev pub on_rli : (RelayLogInfo → RelayLogInfo × Outcome (Unit {0})) → M Slave (Unit {0})
on_rli f s = let (rli, r) = f s.m_rli in (r, record s { m_rli = rli })

unfoldable pub reset_types : TableMapEventInfo → Slave → M Slave (Unit {0})
unfolding reset_known leb_ℤ
reset_types tmi s = when (leb_ℤ (pos 50604) s.m_master_version) (on_rli (reset_known tmi))

unfoldable pub tell_listener : TableMapEventInfo → Slave → Slave
tell_listener tmi s = record s {
  notices = table_mapped tmi.m_table_id tmi.m_tblnam tmi.m_dbnam ∷ s.notices;
}

unfoldable pub process_table_map : TableMapEventInfo → Slave → M Slave (Unit {0})
unfolding reset_types tell_listener
process_table_map tmi s =
    reset_types tmi s >>= (λ _. when s.event_stat (modify (tell_listener tmi)))

unfoldable pub name_table : TableMapEventInfo → Slave → Slave
unfolding set_table_name
name_table tmi s = record s {
  m_rli = set_table_name tmi.m_table_id tmi.m_tblnam tmi.m_dbnam s.m_rli;
}

unfoldable pub note_table : TableMapEventInfo → M Slave (Unit {0})
unfolding name_table process_table_map
note_table tmi = modify (name_table tmi) >>= (λ _. get >>= process_table_map tmi)

unfoldable pub process_table_map_event : BasicEventInfo → Platform → M Slave (Unit {0})
unfolding table_map_event_info note_table
process_table_map_event bei c =
    lift (table_map_event_info c.wire bei.buf bei.event_len) >>= note_table

-- The members that `apply_row_event` is given, and the object with what it leaves of them.
abbrev pub outside : Slave → Outside
outside s = record { calls = s.calls; ext_state = s.ext_state }

abbrev pub left : Outside → Slave → Slave
left w s = record s { calls = w.calls; ext_state = w.ext_state }

-- `none` as in `apply_row_event`.
unfoldable pub apply_event : BasicEventInfo → RowEventInfo → Platform → M Slave (Option (Unit {0}))
unfolding apply_row_event
apply_event bei roi c s =
    let (r, w) = apply_row_event c s.m_rli bei roi s.event_stat (outside s) in (r, left w s)

unfoldable pub process_rows_from : BasicEventInfo → Platform → Slave → M Slave (Option (Unit {0}))
unfolding row_event_info apply_event master_ge_56
process_rows_from bei c s = do
  let do_update = bei.type == update_rows_event_v1 || bei.type == update_rows_event
  roi ← lift (row_event_info c.wire bei.buf bei.event_len do_update (master_ge_56 s))
  apply_event bei roi c

unfoldable pub process_rows : BasicEventInfo → Platform → M Slave (Option (Unit {0}))
unfolding process_rows_from
process_rows bei c = get >>= process_rows_from bei c

-- `bei.when < 0` never holds: `when` is read from 32 bits without a sign.
unfoldable pub process_event :
    Table → Master → Platform → BasicEventInfo → M Slave (Option (Unit {0}))
unfolding process_query process_table_map_event process_rows
process_event blank master c bei =
    if bei.type == query_event
    then (do process_query blank master bei c; pure (some tt))
    else if bei.type == table_map_event
    then (do process_table_map_event bei c; pure (some tt))
    else if is_rows_event bei.type
    then process_rows bei c
    else pure (some tt)
