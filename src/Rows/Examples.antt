-- ===== src/Rows/Examples.antt =====
-- A row of three columns: a number, a column that the event lacks, and a null.
use libslave.Common.{
  ◌≡◌, refl, replicate, arith, Bytes, List, [], ◌∷◌, ◌++◌, ok, ◌>>=◌, codes, true, false, none,
  Ensures,
}
use libslave.Wire.Laws.{plain-IsLittleEndian}
use libslave.Field.Defs.{uint32, long, Field}
use libslave.Field.Examples.{sample}
use libslave.Field.RoundTrip.{integer, unpack-Stores}
use libslave.Wire.{le_bytes}
use libslave.Table.Defs.{
  Table, map_rows, RelayLogInfo, RecordSet, insert_kind, get_table, get_table_name_by_id,
  should_process,
}
use libslave.Event.Defs.{BasicEventInfo, RowEventInfo, write_rows_event}
use libslave.Rows.Defs.{AnyRow, by_name, bit_at, reserve_row, unpack_row, n_set_bits}
use libslave.State.Defs.{initial}
use libslave.Event.Headers.{row_event_info}
use libslave.Rows.Apply.{Outside, apply_row_event, apply_rows, with_row, blank, event_kind}
use libslave.Rows.Delivery.{HoldsRows, deliver, done, apply_row_event-deliver}
use libslave.Rows.Endless.{missing, apply_rows-endless}
use libslave.Rows.Bits.{HasBits}
use libslave.Wire.Laws.{plain}
use libslave.Common.Maps.{insert}
use libslave.Rows.Termination.{HasColumn, IsDone, apply_row_event-IsDone}
use libslave.Rows.Image.{Cell, presents, absent, is_null, image, filled, unpack_row-image}

abbrev column : Bytes → Field
column name = record { field_type = codes "int(10)"; field_name = name; kind = long }

abbrev pub people : Table
people = record {
  fields = column (codes "id") ∷ column (codes "age") ∷ column (codes "boss") ∷ [];
  column_filter = [];
  column_filter_fields = [];
  column_filter_count = 0;
  row_type = map_rows;
  m_callback = λ rs. ok tt;
  m_filter = 7;
  table_name = codes "people";
  database_name = codes "db";
}

abbrev four : Bytes
unfolding le_bytes
four = le_bytes 4 4000000000

abbrev cells : List Cell
unfolding le_bytes
cells = image (uint32 4000000000) four ∷ absent ∷ is_null ∷ []

-- The columns are 0b101, and the null bits 0b10.
unpack_row-image_example :
    unpack_row sample people (by_name []) 3 (2 ∷ four ++ (9 ∷ [])) (5 ∷ []) ≡ (
      filled people 0 people.fields cells (reserve_row people (by_name [])) >>= λ r. ok (r, 9 ∷ []))
unfolding le_bytes bit_at
unpack_row-image_example =
    unpack_row-image sample people (by_name []) cells (5 ∷ []) 2 (four ++ (9 ∷ [])) (9 ∷ [])
      (
        (λ rest.
            unpack-Stores sample plain-IsLittleEndian long (uint32 4000000000) four rest
              (integer 4000000000 (omega arith))),
        tt,
      )
      (refl, (refl, (refl, tt))) (refl, (refl, tt)) refl

-- A row event for `people` whose two rows hold a number each.
abbrev two_rows : RowEventInfo
unfolding le_bytes
two_rows = record {
  m_width = 3;
  m_table_id = 12;
  m_cols = 1 ∷ [];
  m_cols_ai = [];
  m_rows_buf = 0 ∷ four ++ (0 ∷ four);
  m_rows_tail = 0;
  has_after_image = false;
}

abbrev written : BasicEventInfo
written = record {
  type = write_rows_event;
  log_pos = 90;
  when = 10;
  server_id = 1;
  buf = [];
  event_len = 40;
}

abbrev known : RelayLogInfo
known = record {
  m_map_table_name = (12, (codes "db", codes "people")) ∷ [];
  m_table_map = ((codes "db", codes "people"), people) ∷ [];
}

two_rows-HasColumn : HasColumn two_rows
unfolding n_set_bits two_rows
two_rows-HasColumn = (0, refl)

abbrev untouched : Outside
untouched = record { calls = []; ext_state = initial }

apply_row_event-IsDone_example :
    Ensures IsDone (apply_row_event sample known written two_rows true untouched).0
apply_row_event-IsDone_example =
    apply_row_event-IsDone sample written two_rows true known untouched two_rows-HasColumn

abbrev pub number : AnyRow
number = by_name ((codes "id", (codes "int(10)", uint32 4000000000)) ∷ [])

abbrev sets : List RecordSet
sets = with_row (blank people written) number ∷ with_row (blank people written) number ∷ []

two_rows-HoldsRows : HoldsRows sample people written two_rows insert_kind two_rows.m_rows_buf sets
unfolding unpack_row insert two_rows plain le_bytes
two_rows-HoldsRows = (
  omega arith,
  (
    0 ∷ four,
    (
      (number, (refl, refl)),
      (omega arith, (omega arith, ([], ((number, (refl, refl)), (omega arith, omega arith))))),
    ),
  ),
)

apply_row_event-deliver_example :
    apply_row_event sample known written two_rows true untouched
    ≡ done sample people written two_rows insert_kind true
        (deliver sample people written two_rows insert_kind true sets untouched)
unfolding event_kind get_table get_table_name_by_id two_rows should_process
apply_row_event-deliver_example =
    apply_row_event-deliver sample people written two_rows known insert_kind true sets untouched
      refl refl refl two_rows-HoldsRows

-- An insert of no column, as `Row_event_info` reads it out of its packet.
abbrev no_columns : RowEventInfo
unfolding two_rows
no_columns = record two_rows { m_cols = 0 ∷ []; m_rows_buf = 0 ∷ four }

row_event_info-no_columns :
    row_event_info plain
      (replicate 19 0 ++ (le_bytes 6 12 ++ (1 ∷ 0 ∷ [] ++ (3 ∷ 0 ∷ [] ++ (0 ∷ four)))))
      34
      false
      false
    ≡ ok no_columns
unfolding row_event_info no_columns two_rows plain le_bytes four
row_event_info-no_columns = refl

no_columns-HasBits : HasBits (0 ∷ []) 0 (presents (missing people.fields))
unfolding bit_at
no_columns-HasBits = (refl, (refl, (refl, tt)))

apply_rows-endless_example :
    (apply_rows sample 9 people written no_columns insert_kind true (0 ∷ four) untouched).0
    ≡ ok none
unfolding no_columns
apply_rows-endless_example =
    apply_rows-endless sample people written no_columns 0 four insert_kind true refl
      no_columns-HasBits (omega arith) (λ rs. refl) 9 untouched
