-- ===== src/Rows/Endless.antt =====
-- The loop over the rows of an event that has none of the table's columns.
use libslave.Common.{
  ℕ, zero, suc, ◌<◌, ◌≡◌, refl, arith, Bool, true, false, Bytes, List, [], ◌∷◌, ok, length, ltb,
  none, Option,
}
use libslave.Common.Effects.{M, ◌>>=◌}
use libslave.Field.Defs.{Field}
use libslave.Field.Unpack.{Platform}
use libslave.Event.Defs.{BasicEventInfo, RowEventInfo}
use libslave.Table.Defs.{Table, RecordSet, update, EventKind, insert_kind, update_kind, delete_kind}
use libslave.Rows.Defs.{AnyRow, reserve_row, unpack_row}
use libslave.Rows.Bits.{HasBits, trues}
use libslave.Rows.Image.{Cell, absent, presents, nulls, images, Encodes, filled, unpack_row-image}
use libslave.Rows.Apply.{
  Call, Outside, fresh_row, with_row, with_old_row, blank, try_row, note, tick_modify_row_done,
  apply_rows,
}
use libslave.Rows.Delivery.{Reads, do_row-Reads}

abbrev pub missing : List Field → List Cell
missing [] = []
missing (f ∷ fields) = absent ∷ missing fields

length-missing : (fields : List Field) → length (missing fields) ≡ length fields
length-missing [] = refl
length-missing (f ∷ fields) = rw (length-missing fields)

missing-trues : (fields : List Field) → trues (presents (missing fields)) ≡ 0
missing-trues [] = refl
missing-trues (f ∷ fields) = missing-trues fields

missing-images : (fields : List Field) → images (missing fields) ≡ []
missing-images [] = refl
missing-images (f ∷ fields) = missing-images fields

missing-nulls : (fields : List Field) → nulls (missing fields) ≡ []
missing-nulls [] = refl
missing-nulls (f ∷ fields) = missing-nulls fields

missing-Encodes : (c : Platform) (fields : List Field) → Encodes c fields (missing fields)
missing-Encodes c [] = tt
missing-Encodes c (f ∷ fields) = missing-Encodes c fields

filled-missing :
    (table : Table) (i : ℕ) (fields : List Field) (row : AnyRow)
    → filled table i fields (missing fields) row ≡ ok row
unfolding filled
filled-missing table i [] row = refl
filled-missing table i (f ∷ fields) row = filled-missing table (suc i) fields row

-- A row without columns takes no byte.
unpack_row-missing :
    (c : Platform) (table : Table) (fresh : AnyRow) (cols : Bytes) (b : ℕ) (tail : Bytes)
    → HasBits cols 0 (presents (missing table.fields))
    → unpack_row c table fresh (length table.fields) (b ∷ tail) cols
      ≡ ok (reserve_row table fresh, b ∷ tail)
unpack_row-missing c table fresh cols b tail bits =
    let read =
      unpack_row-image c table fresh (missing table.fields) cols b tail (b ∷ tail)
        (missing-Encodes c table.fields) bits (rw (missing-nulls table.fields) tt)
        (rw (missing-trues table.fields, missing-images table.fields) refl) in
    rw (length-missing table.fields, filled-missing table 0 table.fields (reserve_row table fresh))
      at read

module _ (c : Platform) (table : Table) (bei : BasicEventInfo) (roi : RowEventInfo) (b : ℕ)
    (tail : Bytes) where
  -- The record set of a row without columns.
  abbrev bare : EventKind → RecordSet
  bare update_kind =
      let row = reserve_row table (fresh_row table.row_type) in
      record (with_row (with_old_row (blank table bei) row) row) { type_event = update }
  bare insert_kind = with_row (blank table bei) (reserve_row table (fresh_row table.row_type))
  bare delete_kind = with_row (blank table bei) (reserve_row table (fresh_row table.row_type))

  -- The event has none of the table's columns. An update has a second bit map, that of the columns
  -- behind it; the other events have one.
  abbrev pub Lacks : EventKind → Type 0
  Lacks update_kind =
      HasBits roi.m_cols 0 (presents (missing table.fields))
      × HasBits roi.m_cols_ai 0 (presents (missing table.fields))
  Lacks insert_kind = HasBits roi.m_cols 0 (presents (missing table.fields))
  Lacks delete_kind = HasBits roi.m_cols 0 (presents (missing table.fields))

  bare-Reads :
      (kind : EventKind)
      → roi.m_width ≡ length table.fields
      → Lacks kind
      → Reads c table bei roi kind (b ∷ tail) (bare kind) (b ∷ tail)
  bare-Reads update_kind w (lacks, lacks_ai) = (
    reserve_row table (fresh_row table.row_type),
    (
      b ∷ tail,
      (
        reserve_row table (fresh_row table.row_type),
        (
          rw w (unpack_row-missing c table (fresh_row table.row_type) roi.m_cols b tail lacks),
          (
            rw w (
                unpack_row-missing c table (fresh_row table.row_type) roi.m_cols_ai b tail
                  lacks_ai),
            refl,
          ),
        ),
      ),
    ),
  )
  bare-Reads insert_kind w lacks = (
    reserve_row table (fresh_row table.row_type),
    (rw w (unpack_row-missing c table (fresh_row table.row_type) roi.m_cols b tail lacks), refl),
  )
  bare-Reads delete_kind w lacks = (
    reserve_row table (fresh_row table.row_type),
    (rw w (unpack_row-missing c table (fresh_row table.row_type) roi.m_cols b tail lacks), refl),
  )

  note-goes_on :
      (event_stat : Bool) (call : Call) (K : M Outside (Option (Unit {0}))) (s : Outside)
      → ((t : Outside) → (K t).0 ≡ ok none)
      → ((note c event_stat call >>= (λ _ calls. K calls)) s).0 ≡ ok none
  note-goes_on true call K s e = e _
  note-goes_on false call K s e = e s

  -- Where an insert, an update or a delete has bytes left and none of the table's columns, and the
  -- table's callback never throws, the loop over the rows exhausts every fuel: it does not end.
  pub apply_rows-endless :
      (kind : EventKind) (event_stat : Bool)
      → roi.m_width ≡ length table.fields
      → Lacks kind
      → roi.m_rows_tail < length (b ∷ tail)
      → ((rs : RecordSet) → table.m_callback rs ≡ ok tt)
      → (fuel : ℕ) (s : Outside)
      → (apply_rows c fuel table bei roi kind event_stat (b ∷ tail) s).0 ≡ ok none
  unfolding apply_rows try_row
  apply_rows-endless kind event_stat w lacks left answers zero s = refl
  apply_rows-endless kind event_stat w lacks left answers (suc fuel) s =
      let inside : ltb roi.m_rows_tail (length (b ∷ tail)) ≡ true = ground arith in
      let first =
        do_row-Reads c table bei roi kind (b ∷ tail) (bare kind) (b ∷ tail) s
          (bare-Reads kind w lacks) in
      rw (inside, first, answers (bare kind))
        (note-goes_on event_stat (tick_modify_row_done roi.m_table_id kind)
          (apply_rows c fuel table bei roi kind event_stat (b ∷ tail)) _
          (apply_rows-endless kind event_stat w lacks left answers fuel))
