-- ===== src/Slave/Defs.antt =====
-- Slave.h: the members of `Slave` and the methods that set them.
use libslave.Common.{
  Option, ℕ, Bool, not, ◌&&◌, Bytes, List, [], ◌∷◌, Outcome, ok, throws, if◌then◌else◌, some, none,
  no_gtid_on_master,
}
use libslave.Common.Int.{ℤ, pos, leb_ℤ}
use libslave.Common.Maps.{lookup, insert, name_eq}
use libslave.Position.Defs.{Position}
use libslave.State.Defs.{State}
use libslave.State.Default
use libslave.Event.Read.{Tick}
use libslave.Rows.Apply.{Call}
use libslave.Table.Defs.{Table, Key, RelayLogInfo, RowType, RecordSet, set_column_filter}

-- What `setCallback` stores for a table, in four maps with the same keys.
pub record Settings : Type 0 where
  pub callback : RecordSet → Outcome (Unit {0})
  pub filter : ℕ
  pub column_filter : List Bytes
  pub row_type : RowType

-- Calls on the user's objects besides those of `Tick` and `Call`.
pub data Notice : Type 0 where
  xid_callback : (server_id : ℕ) → Notice
  table_mapped : (id : ℕ) → Bytes → Bytes → Notice
  tick_error : Notice

-- `position`, `checksum_alg`, `is_old_storage` and `gtid_mode` are those of `m_master_info`;
-- `ext_state` is a `DefaultExtState`. The calls are kept the last one first.
pub record Slave : Type 0 where
  pub m_server_id : ℕ
  pub m_master_version : ℤ
  pub m_gtid_enabled : Bool
  pub position : Position
  pub checksum_alg : ℕ
  pub is_old_storage : Bool
  pub gtid_mode : Bool
  pub ext_state : State
  pub event_stat : Bool
  pub m_settings : List (Key × Settings)
  pub m_xid_callback : Option (ℕ → Outcome (Unit {0}))
  pub m_rli : RelayLogInfo
  pub ticks : List Tick
  pub calls : List Call
  pub notices : List Notice

unfoldable pub master_ge_56 : Slave → Bool
unfolding leb_ℤ
master_ge_56 s = leb_ℤ (pos 50600) s.m_master_version

unfoldable pub set_master_info : Position → Slave → Slave
unfolding Default.set_master_position
set_master_info p s = record s {
  position = p;
  ext_state = Default.set_master_position p s.ext_state;
}

unfoldable pub set_callback : Key → Settings → Slave → Slave
unfolding insert
set_callback key settings s = record s { m_settings = insert key settings s.m_settings }

unfoldable pub enable_gtid : Bool → Slave → Outcome Slave
enable_gtid on s =
    if on && not s.gtid_mode
    then throws no_gtid_on_master
    else ok (record s { m_gtid_enabled = on })

-- What is set on a table after it is read: callback, filter, column filter, kind of rows.
unfoldable pub apply_settings : Settings → Table → Table
unfolding set_column_filter
apply_settings c t =
    record (set_column_filter c.column_filter
      (record t { m_callback = c.callback; m_filter = c.filter })) { row_type = c.row_type }

-- Maps give a default for a key that they lack; the keys here are those of `setCallback`.
abbrev pub configure : List (Key × Settings) → Key → Table → Table
unfolding lookup apply_settings
configure settings key t = elim (lookup key settings) [ none ↦ t | some c ↦ apply_settings c t ]

abbrev pub configure_all : List (Key × Settings) → List (Key × Table) → List (Key × Table)
unfolding lookup apply_settings
configure_all settings [] = []
configure_all settings ((key, t) ∷ tables) =
    (key, configure settings key t) ∷ configure_all settings tables
