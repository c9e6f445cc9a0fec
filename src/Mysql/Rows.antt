-- ===== src/Mysql/Rows.antt =====
-- The rows that `store` puts together.
use libslave.Common.{
  ℕ, suc, ◌≡◌, refl, ap, ◌∙◌, sym, Bytes, List, [], ◌∷◌, ◌++◌, none, some, ok, length, arith, map,
}
use mathlib.Core.List.{append_assoc, append-nil}
use libslave.Common.Maps.{lookup, string_eq}
use libslave.Common.Fresh.{lookup-middle, insert-middle, insert-new, Apart, Apart-nil, Apart-snoc}
use libslave.Common.Effects.{M, modify}
use libslave.Mysql.Defs.{Process, note, mysql_use_result, mysql_free_result}
use libslave.Mysql.Connection.{Diagnosis}
use libslave.Mysql.Result.{
  SqlField, Fields, ResultSet, insert_field, make_fields, assign, assign_cells, fetch_ended,
  use_rows, use_result, use_query, store,
}

-- The fields of a row: the cell of each column under the column's name.
abbrev pub row_of : List (Bytes × ℕ) → List Bytes → Fields
row_of [] cells = []
row_of (column ∷ columns) [] = []
row_of ((name, type) ∷ columns) (cell ∷ cells) =
    (name, record { name = name; type = type; «data» = cell }) ∷ row_of columns cells

abbrev pub empties : List (Bytes × ℕ) → List Bytes
empties [] = []
empties (column ∷ columns) = [] ∷ empties columns

-- No name stands twice.
abbrev pub IsDistinct : List (Bytes × ℕ) → Type 0
unfolding lookup
IsDistinct [] = Unit {0}
IsDistinct ((name, type) ∷ columns) = (lookup name columns ≡ none) × IsDistinct columns

abbrev pub entry : Bytes → ℕ → Bytes → Bytes × SqlField
entry name type cell = (name, record { name = name; type = type; «data» = cell })

make_fields-row_of :
    (m : Fields) (columns : List (Bytes × ℕ))
    → Apart m columns
    → IsDistinct columns
    → make_fields columns m ≡ m ++ row_of columns (empties columns)
unfolding make_fields insert_field lookup
make_fields-row_of m [] apart distinct = sym (append-nil m)
make_fields-row_of m ((name, type) ∷ columns) (new, apart) (once, distinct) =
    rw (new, insert-new name (entry name type []).1 m new)
      (make_fields-row_of (m ++ (entry name type [] ∷ [])) columns
          (Apart-snoc name (entry name type []).1 m columns once apart) distinct
        ∙ append_assoc m (entry name type [] ∷ []) (row_of columns (empties columns)))

assign-entry :
    (m rest : Fields) (name : Bytes) (type : ℕ) (old cell : Bytes)
    → lookup name m ≡ none
    → assign name cell (m ++ (entry name type old ∷ rest)) ≡ m ++ (entry name type cell ∷ rest)
unfolding assign
assign-entry m rest name type old cell new =
    rw (lookup-middle name (entry name type old).1 m rest new)
      (insert-middle name (entry name type old).1 (entry name type cell).1 m rest new)

assign_cells-row_of :
    (m : Fields) (columns : List (Bytes × ℕ)) (old cells : List Bytes)
    → Apart m columns
    → IsDistinct columns
    → length old ≡ length columns
    → length cells ≡ length columns
    → assign_cells (length columns) columns cells (m ++ row_of columns old)
      ≡ ok (m ++ row_of columns cells)
unfolding assign_cells lookup
assign_cells-row_of m [] old cells apart distinct e e' = refl
assign_cells-row_of m (column ∷ columns) [] cells apart distinct e e' = absurd (omega arith)
assign_cells-row_of m (column ∷ columns) (o ∷ old) [] apart distinct e e' = absurd (omega arith)
assign_cells-row_of m ((name, type) ∷ columns) (o ∷ old) (cell ∷ cells) (new, apart)
      (once, distinct) e e' =
    ap (assign_cells (length columns) columns cells) (
      assign-entry m (row_of columns old) name type o cell new
      ∙ sym (append_assoc m (entry name type cell ∷ []) (row_of columns old)))
    ∙ (assign_cells-row_of (m ++ (entry name type cell ∷ [])) columns old cells
          (Apart-snoc name (entry name type cell).1 m columns once apart) distinct (omega arith)
          (omega arith)
        ∙ ap ok (append_assoc m (entry name type cell ∷ []) (row_of columns cells)))

-- Each row has a cell for every column.
abbrev pub Each : (List Bytes → Type 0) → List (List Bytes) → Type 0
Each P [] = Unit {0}
Each P (cells ∷ rows) = P cells × Each P rows

abbrev pub IsFull : List (Bytes × ℕ) → List Bytes → Type 0
IsFull columns cells = length cells ≡ length columns

abbrev pub collect : Fields → M (List Fields) (Unit {0})
collect fields = modify (λ out. out ++ (fields ∷ []))

use_rows-row_of :
    (r : ResultSet) (rows : List (List Bytes)) (old : List Bytes) (out : List Fields)
    → r.num_fields ≡ length r.columns
    → IsDistinct r.columns
    → IsFull r.columns old
    → Each (IsFull r.columns) rows
    → use_rows collect r rows (row_of r.columns old) out
      ≡ (fetch_ended r.failure, out ++ map (row_of r.columns) rows)
unfolding use_rows
use_rows-row_of r [] old out n distinct o full =
    ap (λ l. (fetch_ended r.failure, l)) (sym (append-nil out))
use_rows-row_of r (cells ∷ rows) old out n distinct o (filled, full) =
    let assigned =
      assign_cells-row_of [] r.columns old cells (Apart-nil SqlField r.columns) distinct o filled in
    rw (n, assigned)
      (use_rows-row_of r rows cells (out ++ (row_of r.columns cells ∷ [])) n distinct filled full
        ∙ ap (λ l. (fetch_ended r.failure, l))
            (append_assoc out (row_of r.columns cells ∷ []) (map (row_of r.columns) rows)))

empties-IsFull : (columns : List (Bytes × ℕ)) → IsFull columns (empties columns)
empties-IsFull [] = refl
empties-IsFull (column ∷ columns) = ap suc (empties-IsFull columns)

-- Where a result has as many fields as columns, no name of a column stands twice, and each row has a
-- cell for every column, `store` appends for each row, in order, the row's own cells under the names
-- of the columns; it frees the result also where fetching the rows fails, which it passes on.
pub store-row_of :
    (d : Diagnosis) (r : ResultSet) (p : Process) (out : List Fields)
    → r.num_fields ≡ length r.columns
    → IsDistinct r.columns
    → Each (IsFull r.columns) r.rows
    → store d (some r) (p, out) ≡ (
      fetch_ended r.failure,
      (note mysql_free_result (note mysql_use_result p), out ++ map (row_of r.columns) r.rows),
    )
unfolding store use_query use_result
store-row_of d r p out n distinct full =
    let made = make_fields-row_of [] r.columns (Apart-nil SqlField r.columns) distinct in
    let rows =
      use_rows-row_of r r.rows (empties r.columns) out n distinct (empties-IsFull r.columns) full in
    rw made (ap (λ x. (x.0, (note mysql_free_result (note mysql_use_result p), x.1))) rows)
