-- ===== src/Rows/Defs.antt =====
-- slave_log_event.cpp: `n_set_bits`, `fill_row`, `reserve_row`, `unpack_row`.
use libslave.Common.{
  ℕ, zero, suc, ◌+◌, ◌*◌, ◌/◌, ◌%◌, ◌^◌, Bool, true, Bytes, List, [], ◌∷◌, ◌++◌, Outcome, ok, fault,
  ◌>>=◌, ◌>>◌, ltb, ◌==◌, not, if◌then◌else◌, drop, length, replicate, set, throw_if, or_fault,
  get_elem?, field_count_mismatch,
}
use libslave.Common.Maps.{insert, string_eq}
use libslave.Wire.{le}
use libslave.Field.Defs.{FieldValue, null, Field}
use libslave.Field.Unpack.{Platform, peek, unpack}
use libslave.Table.Defs.{Table, Row, RowVector, has_bit}

-- `bits[i / 8] & (1 << (i & 7))`, a fault out of range.
unfoldable pub bit_at : Bytes → ℕ → Outcome Bool
bit_at bits i = do b ← or_fault (get_elem? bits (i / 8)); ok (has_bit b (2 ^ (i % 8)))

-- The bits from i on, `count` of them.
unfoldable pub set_bits_from : Bytes → ℕ → ℕ → ℕ → Outcome ℕ
unfolding bit_at
set_bits_from b i zero ret = ok ret
set_bits_from b i (suc count) ret = do
  is_set ← bit_at b i
  set_bits_from b (suc i) count (if is_set then suc ret else ret)

unfoldable pub n_set_bits : Bytes → ℕ → Outcome ℕ
unfolding set_bits_from
n_set_bits b count = set_bits_from b 0 count 0

-- The template's parameter: a row by names or by positions.
pub data AnyRow : Type 0 where
  by_name : Row → AnyRow
  by_position : RowVector → AnyRow

-- `table.column_filter.empty() || table.column_filter[index / 8] & (1 << (index & 7))`
unfoldable pub passes_filter : Table → ℕ → Outcome Bool
unfolding bit_at
passes_filter table index = elim table.column_filter [
  | [] ↦ ok true
  | b ∷ bitmap ↦ bit_at (b ∷ bitmap) index
]

-- `row[i] = cell` on a vector, a fault out of range.
abbrev store : ℕ → Bytes × FieldValue → RowVector → Outcome RowVector
store i cell row = if ltb i (length row) then ok (set row i cell) else fault

abbrev fill_position : Table → RowVector → ℕ → Bytes × FieldValue → Outcome RowVector
fill_position table row index cell = elim table.column_filter [
  | [] ↦ ok (row ++ (cell ∷ []))
  | b ∷ bitmap ↦ do
    position ← or_fault (get_elem? table.column_filter_fields index)
    store position cell row
]

-- The field is `table.fields[index]`.
unfoldable pub fill_row : Table → AnyRow → ℕ → Field → FieldValue → Outcome AnyRow
unfolding passes_filter insert
fill_row table row index field value = do
  passes ← passes_filter table index
  elim row [
    | by_name r ↦
        if passes
        then ok (by_name (insert field.field_name (field.field_type, value) r))
        else ok (by_name r)
    | by_position r ↦
        if passes
        then (do r' ← fill_position table r index (field.field_type, value); ok (by_position r'))
        else ok (by_position r)
  ]

-- `reserve_row` on the fresh row: with a filter the vector gets its length.
unfoldable pub reserve_row : Table → AnyRow → AnyRow
reserve_row table (by_name r) = by_name r
reserve_row table (by_position r) = elim table.column_filter [
  | [] ↦ by_position r
  | b ∷ bitmap ↦ by_position (replicate table.column_filter_count ([], null))
]

-- The variables of the loop over the columns; `i` counts them.
pub record Scanner : Type 0 where
  pub i : ℕ
  pub null_mask : ℕ
  pub null_bits : ℕ
  pub null_ptr : Bytes
  pub ptr : Bytes
  pub row : AnyRow

-- `if ((null_mask & 0xFF) == 0) { null_mask = 1U; null_bits = *null_ptr++; }`
unfoldable pub next_null : Scanner → Outcome Scanner
unfolding le
next_null s =
    if s.null_mask % 256 == 0
    then (do
      b ← peek 1 (le 1) s.null_ptr
      ok (record s { null_mask = 1; null_bits = b; null_ptr = drop 1 s.null_ptr }))
    else ok s

-- `!cols.empty() && !(cols[i / 8] & (1 << (i & 7)))`, negated.
unfoldable pub in_columns : Bytes → ℕ → Outcome Bool
unfolding bit_at
in_columns [] i = ok true
in_columns (b ∷ cols) i = bit_at (b ∷ cols) i

module _ (c : Platform) (table : Table) where
  unfoldable pub read_cell : Field → Scanner → Outcome Scanner
  unfolding unpack fill_row
  read_cell field s =
      if has_bit s.null_bits s.null_mask
      then (do row ← fill_row table s.row s.i field null; ok (record s { row = row }))
      else do
        (value, ptr) ← unpack c field.kind s.ptr
        row ← fill_row table s.row s.i field value
        ok (record s { row = row; ptr = ptr })

  -- One round of the loop.
  unfoldable pub scan_column : Bytes → Field → Scanner → Outcome Scanner
  unfolding read_cell next_null in_columns
  scan_column cols field s = do
    present ← in_columns cols s.i
    (if present
        then (do
          s1 ← next_null s
          s2 ← read_cell field s1
          ok (record s2 { i = suc s2.i; null_mask = s2.null_mask * 2 }))
        else ok (record s { i = suc s.i }))

  unfoldable pub scan_columns : Bytes → List Field → Scanner → Outcome Scanner
  unfolding scan_column
  scan_columns cols [] s = ok s
  scan_columns cols (field ∷ fields) s =
      scan_column cols field s >>= λ s'. scan_columns cols fields s'

  unfoldable pub unpack_row : AnyRow → ℕ → Bytes → Bytes → Outcome (AnyRow × Bytes)
  unfolding scan_columns n_set_bits reserve_row le
  unpack_row fresh colcnt row cols = do
    throw_if (not (colcnt == length table.fields)) field_count_mismatch
    set_count ← n_set_bits cols colcnt
    bits ← peek 1 (le 1) row
    s ← scan_columns cols table.fields (record {
      i = 0;
      null_mask = 1;
      null_bits = bits;
      null_ptr = drop 1 row;
      ptr = drop ((set_count + 7) / 8) row;
      row = reserve_row table fresh;
    })
    ok (s.row, s.ptr)
