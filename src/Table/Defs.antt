-- ===== src/Table/Defs.antt =====
-- recordset.h's rows, table.h's `Table`, relayloginfo.h's `RelayLogInfo`, SlaveStats.h's kinds.
use libslave.Common.{
  ℕ, zero, suc, ◌+◌, ◌-◌, ◌/◌, ◌%◌, ◌^◌, Bool, Bytes, List, [], ◌∷◌, ◌++◌, Outcome, Option, none,
  some, ◌==◌, if◌then◌else◌, length, leb, set, replicate, get_elem?, get_elem?,
}
use libslave.Common.Maps.{lookup, insert, bytes_eq, string_eq, name_eq, nat_eq}
use libslave.Field.Defs.{FieldValue, Field}

pub data RowType : Type 0 where
  map_rows vector_rows : RowType

abbrev pub Row : Type 0
Row = List (Bytes × (Bytes × FieldValue))

abbrev pub RowVector : Type 0
RowVector = List (Bytes × FieldValue)

pub data TypeEvent : Type 0 where
  update delete write : TypeEvent

pub record RecordSet : Type 0 where
  pub m_row : Row
  pub m_old_row : Row
  pub m_row_vec : RowVector
  pub m_old_row_vec : RowVector
  pub row_type : RowType
  pub tbl_name : Bytes
  pub db_name : Bytes
  pub when : ℕ
  pub type_event : TypeEvent
  pub master_id : ℕ

-- `eInsert`, `eUpdate`, `eDelete`; an `EventKind` as a filter is a sum of them.
pub data EventKind : Type 0 where
  insert_kind update_kind delete_kind : EventKind

abbrev pub kind_mask : EventKind → ℕ
kind_mask insert_kind = 1
kind_mask update_kind = 2
kind_mask delete_kind = 4

-- `v & mask` for a mask of one bit.
abbrev pub has_bit : ℕ → ℕ → Bool
has_bit v mask = v / mask % 2 == 1

unfoldable pub should_process : ℕ → EventKind → Bool
should_process filter kind = has_bit filter (kind_mask kind)

-- A callback is the caller's function: what it does is a call, and it may throw.
pub record Table : Type 0 where
  pub fields : List Field
  pub column_filter : Bytes
  pub column_filter_fields : List ℕ
  pub column_filter_count : ℕ
  pub row_type : RowType
  pub m_callback : RecordSet → Outcome (Unit {0})
  pub m_filter : ℕ
  pub table_name : Bytes
  pub database_name : Bytes

unfoldable pub full_name : Table → Bytes
full_name t = t.database_name ++ (b'.' ∷ t.table_name)

-- The position of a name among the fields, as the inner loop of `set_column_filter` finds it.
unfoldable pub index_of : Bytes → List Field → Option ℕ
index_of name [] = none
index_of name (f ∷ fs) =
    if bytes_eq f.field_name name
    then some 0
    else elim (index_of name fs) [ none ↦ none | some i ↦ some (suc i) ]

-- `v |= mask` for a mask of one bit.
abbrev pub or_bit : ℕ → ℕ → ℕ
or_bit v mask = if has_bit v mask then v else v + mask

-- `column_filter[index >> 3] |= 1 << (index & 7)`
unfoldable pub mark : ℕ → Bytes → Bytes
mark index bitmap = elim (get_elem? bitmap (index / 8)) [
  | none ↦ bitmap
  | some b ↦ set bitmap (index / 8) (or_bit b (2 ^ (index % 8)))
]

-- The loop over the names; `i` is the position in the filter.
unfoldable pub mark_all : List Field → ℕ → List Bytes → Bytes × List ℕ → Bytes × List ℕ
unfolding index_of mark
mark_all fields i [] state = state
mark_all fields i (name ∷ names) (bitmap, positions) =
    mark_all fields (suc i) names (elim (index_of name fields) [
      | none ↦ (bitmap, positions)
      | some index ↦ (mark index bitmap, set positions index i)
    ])

-- `resize(n)`
abbrev pub resize : ℕ → List ℕ → List ℕ
resize zero l = []
resize (suc n) [] = 0 ∷ resize n []
resize (suc n) (x ∷ l) = x ∷ resize n l

-- The loop that clears both arrays runs over the bytes of the bitmap.
abbrev pub clear_front : ℕ → List ℕ → List ℕ
clear_front zero l = l
clear_front (suc n) [] = []
clear_front (suc n) (x ∷ l) = 0 ∷ clear_front n l

unfoldable pub set_column_filter : List Bytes → Table → Table
unfolding mark_all
set_column_filter [] t = record t {
  column_filter = [];
  column_filter_fields = [];
  column_filter_count = 0;
}
set_column_filter (name ∷ names) t =
    let size = (length t.fields + 7) / 8 in
    let (bitmap, positions) =
      mark_all t.fields 0 (name ∷ names)
        (replicate size 0, clear_front size (resize (length t.fields) t.column_filter_fields)) in
    record t {
      column_filter = bitmap;
      column_filter_fields = positions;
      column_filter_count = length (name ∷ names);
    }

abbrev pub Key : Type 0
Key = Bytes × Bytes

pub record RelayLogInfo : Type 0 where
  pub m_map_table_name : List (ℕ × Key)
  pub m_table_map : List (Key × Table)

unfoldable pub clear : RelayLogInfo → RelayLogInfo
clear r = record { m_map_table_name = []; m_table_map = [] }

unfoldable pub set_table_name : ℕ → Bytes → Bytes → RelayLogInfo → RelayLogInfo
unfolding insert
set_table_name id table_name db_name r = record r {
  m_map_table_name = insert id (db_name, table_name) r.m_map_table_name;
}

-- The parameter is an `int`: an id is cut to 32 bits, and is compared as an `unsigned long` again.
abbrev pub as_int : ℕ → ℕ
as_int id = let v = id % 2 ^ 32 in if leb v (2 ^ 31 - 1) then v else v + 2 ^ 64 - 2 ^ 32

abbrev found_name : Option Key → Key
found_name none = ([], [])
found_name (some key) = key

unfoldable pub get_table_name_by_id : ℕ → RelayLogInfo → Key
get_table_name_by_id id r = found_name (lookup (as_int id) r.m_map_table_name)

unfoldable pub get_table : Key → RelayLogInfo → Option Table
unfolding lookup
get_table key r = lookup key r.m_table_map

unfoldable pub set_table : Bytes → Bytes → Table → RelayLogInfo → RelayLogInfo
unfolding insert
set_table table_name db_name t r = record r {
  m_table_map = insert (db_name, table_name) t r.m_table_map;
}
