-- ===== src/Rows/Choices.antt =====
-- A filter of two columns, in another order than the table's.
use libslave.Common.{◌≡◌, refl, Bytes, List, [], ◌∷◌, codes, ok, if◌then◌else◌}
use libslave.Field.Defs.{Field, uint32, long, null}
use libslave.Table.Defs.{set_column_filter, index_of, RowVector}
use libslave.Rows.Defs.{by_position, fill_row}
use libslave.Rows.Examples.{people}
use libslave.Rows.Filter.{mentions}
use libslave.Rows.Filtered.{with_cell, fill_row-set_column_filter}

abbrev wanted : List Bytes
wanted = codes "boss" ∷ codes "id" ∷ []

abbrev id : Field
id = record { field_type = codes "int(10)"; field_name = codes "id"; kind = long }

abbrev empty_row : RowVector
empty_row = ([], null) ∷ ([], null) ∷ []

fill_row-set_column_filter_example :
    fill_row (set_column_filter wanted people) (by_position empty_row) 0 id (uint32 5)
    ≡ ok (
        if mentions (codes "id") wanted
        then with_cell wanted id (uint32 5) (by_position empty_row)
        else by_position empty_row)
unfolding index_of
fill_row-set_column_filter_example =
    fill_row-set_column_filter wanted people 0 id (uint32 5) (λ e. cc) refl refl
      (by_position empty_row) refl
