-- ===== src/Table/Names.antt =====
-- relayloginfo.h: what `getTableNameById` finds after `setTableName`. The one takes an `int`, the
-- other an `unsigned long`; a table's id has 48 bits on the wire.
use libslave.Common.{
  ℕ, ◌^◌, ◌≤◌, ◌<◌, ◌≡◌, arith, Bytes, ◌==◌, if◌then◌else◌, false, Bool-cases, inl, inr,
}
use libslave.Common.Maps.{lookup-insert, nat_eq}
use libslave.Table.Defs.{RelayLogInfo, set_table_name, get_table_name_by_id, as_int}

as_int_small : (id : ℕ) → id < 2 ^ 31 → as_int id ≡ id
as_int_small id h = ground arith

as_int_large : (id : ℕ) → 2 ^ 31 ≤ id → id < 2 ^ 48 → (id == as_int id) ≡ false
as_int_large id h h' = ground arith

-- For two ids below 2^31, the name that is found for the one after a name is set for the other is
-- that name where the ids are equal, and else what was found before.
pub get_table_name_by_id-set_table_name :
    (id other : ℕ) (table_name db_name : Bytes) (r : RelayLogInfo)
    → id < 2 ^ 31
    → other < 2 ^ 31
    → get_table_name_by_id other (set_table_name id table_name db_name r)
      ≡ (if id == other then (db_name, table_name) else get_table_name_by_id other r)
unfolding get_table_name_by_id set_table_name
get_table_name_by_id-set_table_name id other table_name db_name r h h' =
    rw (as_int_small other h', lookup-insert id other (db_name, table_name) r.m_map_table_name)
      (elim (Bool-cases (id == other)) [ inl e ↦ rw e | inr e ↦ rw e ])

-- An id from 2^31 on is cut on the way to the map: the name that was just set for it is not found,
-- and the answer is the one before.
pub get_table_name_by_id-large :
    (id : ℕ) (table_name db_name : Bytes) (r : RelayLogInfo)
    → 2 ^ 31 ≤ id
    → id < 2 ^ 48
    → get_table_name_by_id id (set_table_name id table_name db_name r) ≡ get_table_name_by_id id r
unfolding get_table_name_by_id set_table_name
get_table_name_by_id-large id table_name db_name r h h' =
    rw (lookup-insert id (as_int id) (db_name, table_name) r.m_map_table_name, as_int_large id h h')
