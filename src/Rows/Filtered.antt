-- ===== src/Rows/Filtered.antt =====
-- `fill_row` on a table with a filter of columns: the row by names and the row by positions.
use libslave.Common.{
  ℕ, zero, suc, ◌+◌, ◌/◌, ◌≤◌, ◌<◌, ◌≡◌, ◌≢◌, refl, ap, ◌∙◌, arith, Bool, true, false, ◌==◌,
  if◌then◌else◌, Bytes, List, [], ◌∷◌, Option, some, length, get_elem?, set, replicate, length-set,
  ok, lt→ltb, Bool-cases, Option-cases, inl, inr,
}
use libslave.Common.Maps.{bytes_eq, insert, string_eq}
use libslave.Field.Defs.{Field, FieldValue}
use libslave.Table.Defs.{
  Table, RowVector, index_of, mark, mark_all, set_column_filter, resize, clear_front,
}
use libslave.Table.Bits.{get_elem?-set}
use libslave.Rows.Defs.{AnyRow, by_name, by_position, fill_row, passes_filter, bit_at}
use libslave.Rows.Filter.{
  mentions, column_filter-mentions, passes_filter-bit, no_bit, found-here, missed, mark_all-missed,
  mark_all-found, index_of-found, get_elem?-lt,
}

-- The place that the filter gives a name: that of its last mention.
pub place : ℕ → Bytes → List Bytes → ℕ → ℕ
place k name [] d = d
place k name (other ∷ names) d = place (suc k) name names (if bytes_eq other name then k else d)

place-bound :
    (k : ℕ) (name : Bytes) (names : List Bytes) (d n : ℕ)
    → k + length names ≤ n
    → d < n
    → place k name names d < n
unfolding place
place-bound k name [] d n h hd = hd
place-bound k name (other ∷ names) d n h hd = elim (Bool-cases (bytes_eq other name)) [
  | inl e ↦ rw e (place-bound (suc k) name names k n (omega arith) (omega arith))
  | inr e ↦ rw e (place-bound (suc k) name names d n (omega arith) hd)
]

-- What was there before is of no account for a name that is mentioned.
place-mentions :
    (k : ℕ) (name : Bytes) (names : List Bytes) (d e : ℕ)
    → mentions name names ≡ true
    → place k name names d ≡ place k name names e
unfolding place mentions
place-mentions k name [] d e h = cc
place-mentions k name (other ∷ names) d e h = elim (Bool-cases (bytes_eq other name)) [
  | inl q ↦ rw q refl
  | inr q ↦ rw q (place-mentions (suc k) name names d e (rw q at h))
]

get_elem?-some {ℓ} :
    {A : Type ℓ} (xs : List A) (j : ℕ) → j < length xs → (x : A) × (get_elem? xs j ≡ some x)
get_elem?-some [] j h = absurd (omega arith)
get_elem?-some (x ∷ xs) zero h = (x, refl)
get_elem?-some (x ∷ xs) (suc j) h = get_elem?-some xs j (omega arith)

either :
    (a b : Bool) (o : Option ℕ) (k d : ℕ)
    → o ≡ some d
    → a ≡ b
    → (if a then some k else o) ≡ some (if b then k else d)
either true true o k d e h = refl
either false false o k d e h = e
either true false o k d e h = cc
either false true o k d e h = cc

length-resize : (n : ℕ) (l : List ℕ) → length (resize n l) ≡ n
length-resize zero l = refl
length-resize (suc n) [] = ap suc (length-resize n [])
length-resize (suc n) (x ∷ l) = ap suc (length-resize n l)

length-clear_front : (n : ℕ) (l : List ℕ) → length (clear_front n l) ≡ length l
length-clear_front zero l = refl
length-clear_front (suc n) [] = refl
length-clear_front (suc n) (x ∷ l) = ap suc (length-clear_front n l)

not_mentioned : (name : Bytes) → mentions name [] ≡ true → ⊥
unfolding mentions
not_mentioned name h = cc

module _ (fields : List Field) (f : Field) (i : ℕ) (column : get_elem? fields i ≡ some f)
    (first : index_of f.field_name fields ≡ some i) where
  -- The loop over the names leaves the place in the column's entry.
  mark_all-place :
      (k : ℕ) (names : List Bytes) (b : Bytes) (positions : List ℕ) (d : ℕ)
      → length positions ≡ length fields
      → get_elem? positions i ≡ some d
      → get_elem? (mark_all fields k names (b, positions)).1 i ≡ some (place k f.field_name names d)
  unfolding mark_all place
  mark_all-place k [] b positions d size e = e
  mark_all-place k (name ∷ names) b positions d size e =
      elim (Option-cases (index_of name fields)) [
        | inl n ↦
            rw
              (
                mark_all-missed fields k name names b positions n,
                missed fields f i column first name n,
              )
              (mark_all-place (suc k) names b positions d size e)
        | inr (index, n) ↦
            let (g, at, _) = index_of-found name fields index n in
            let lt : index < length positions = omega (arith, get_elem?-lt fields index at) in
            let (x, there) = get_elem?-some positions index lt in
            let written : get_elem? (set positions index k) i
                ≡ some (if bytes_eq name f.field_name then k else d) =
              get_elem?-set positions index i k there
              ∙ either (index == i) (bytes_eq name f.field_name) (get_elem? positions i) k d e
                  (found-here fields f i column first name index n) in
            rw (mark_all-found fields k name names b positions index n) (
              mark_all-place (suc k) names (mark index b) (set positions index k)
                (if bytes_eq name f.field_name then k else d) (length-set positions index k ∙ size)
                written)
      ]

-- The column's entry is the place of its name in the filter.
column_filter_fields-place :
    (names : List Bytes) (t : Table) (i : ℕ) (f : Field)
    → get_elem? t.fields i ≡ some f
    → index_of f.field_name t.fields ≡ some i
    → mentions f.field_name names ≡ true
    → get_elem? (set_column_filter names t).column_filter_fields i
      ≡ some (place 0 f.field_name names 0)
unfolding set_column_filter
column_filter_fields-place [] t i f column first h = absurd (not_mentioned f.field_name h)
column_filter_fields-place (name ∷ names) t i f column first h =
    let width = length t.fields in
    let positions = clear_front ((width + 7) / 8) (resize width t.column_filter_fields) in
    let size : length positions ≡ width =
      length-clear_front ((width + 7) / 8) (resize width t.column_filter_fields)
      ∙ length-resize width t.column_filter_fields in
    let inside : i < length positions = omega (arith, get_elem?-lt t.fields i column, size) in
    let (d, at) = get_elem?-some positions i inside in
    mark_all-place t.fields f i column first 0 (name ∷ names) (replicate ((width + 7) / 8) 0)
      positions d size at
    ∙ ap some (place-mentions 0 f.field_name (name ∷ names) d 0 h)

-- A cell goes to the entry's place in a vector that is long enough.
stored :
    (t : Table) (r : RowVector) (i k : ℕ) (f : Field) (v : FieldValue) (cf : Bytes)
    → bit_at cf i ≡ ok true
    → get_elem? t.column_filter_fields i ≡ some k
    → k < length r
    → fill_row (record t { column_filter = cf }) (by_position r) i f v
      ≡ ok (by_position (set r k (f.field_type, v)))
unfolding fill_row passes_filter
stored t r i k f v [] bit entry inside = absurd (no_bit i true bit)
stored t r i k f v (b ∷ cf) bit entry inside = rw (bit, entry, lt→ltb k (length r) inside)

-- The row of which a column is a part: by names, or by the places in the filter.
abbrev pub with_cell : List Bytes → Field → FieldValue → AnyRow → AnyRow
unfolding insert
with_cell names f v (by_name r) = by_name (insert f.field_name (f.field_type, v) r)
with_cell names f v (by_position r) =
    by_position (set r (place 0 f.field_name names 0) (f.field_type, v))

-- A row by positions has a place for each name of the filter, as `reserve_row` makes it.
abbrev pub IsReserved : List Bytes → AnyRow → Type 0
IsReserved names (by_name r) = Unit {0}
IsReserved names (by_position r) = length r ≡ length names

left_out :
    (t : Table) (row : AnyRow) (i : ℕ) (f : Field) (v : FieldValue)
    → passes_filter t i ≡ ok false
    → fill_row t row i f v ≡ ok row
unfolding fill_row
left_out t (by_name r) i f v h = rw h
left_out t (by_position r) i f v h = rw h

some_length : (names : List Bytes) → names ≢ [] → 0 < length names
some_length [] h = absurd (h refl)
some_length (name ∷ names) h = omega arith

module _ (names : List Bytes) (t : Table) (i : ℕ) (f : Field) (v : FieldValue)
    (some_names : names ≢ []) (column : get_elem? t.fields i ≡ some f)
    (first : index_of f.field_name t.fields ≡ some i) where
  put_in :
      (row : AnyRow)
      → IsReserved names row
      → mentions f.field_name names ≡ true
      → fill_row (set_column_filter names t) row i f v ≡ ok (with_cell names f v row)
  unfolding with_cell
  put_in (by_name r) size h =
      let bit = column_filter-mentions names t i f some_names column first ∙ ap ok h in
      unfold fill_row in rw (passes_filter-bit (set_column_filter names t) i true bit)
  put_in (by_position r) size h =
      let bit = column_filter-mentions names t i f some_names column first ∙ ap ok h in
      stored (set_column_filter names t) r i (place 0 f.field_name names 0) f v
        (set_column_filter names t).column_filter bit
        (column_filter_fields-place names t i f column first h)
        (place-bound 0 f.field_name names 0 (length r) (omega arith)
          (omega (arith, some_length names some_names)))

  -- With a filter of some names, whatever filter the table had before, `fill_row` puts a column into
  -- the row just where the filter mentions its name, under that name or at the place of its last
  -- mention, and else leaves the row as it is: for a column that is the first of its name, and a row
  -- by positions with as many places as the filter has names.
  pub fill_row-set_column_filter :
      (row : AnyRow)
      → IsReserved names row
      → fill_row (set_column_filter names t) row i f v
        ≡ ok (if mentions f.field_name names then with_cell names f v row else row)
  fill_row-set_column_filter row size = elim (Bool-cases (mentions f.field_name names)) [
    | inl q ↦ rw q (put_in row size q)
    | inr q ↦ rw q (
        left_out (set_column_filter names t) row i f v (
          passes_filter-bit (set_column_filter names t) i false
            (column_filter-mentions names t i f some_names column first ∙ ap ok q)))
  ]
