-- ===== src/Rows/Ends.antt =====
-- The loop over the rows of an event: what a row takes of the packet, and the fuel of `apply_rows`.
use libslave.Common.{
  ℕ, suc, ◌+◌, ◌-◌, ◌/◌, ◌≤◌, ◌<◌, ◌≡◌, refl, arith, Bool, true, false, not, Bytes, List, [], ◌∷◌,
  Outcome, ok, ◌>>=◌, Ensures, Ensures-bind, Ensures-weaken, length, length-drop, drop, ltb, ◌==◌,
  if◌then◌else◌, ◌*◌, ◌%◌, Bool-cases, inl, inr, throw_if, field_count_mismatch,
}
use libslave.Wire.{le}
use libslave.Field.Defs.{null, Field}
use libslave.Field.Unpack.{Platform, peek, unpack}
use libslave.Field.Shrinks.{Any, Ensures-Any, Within, unpack-Within}
use libslave.Table.Defs.{Table}
use libslave.Rows.Defs.{
  AnyRow, fill_row, reserve_row, Scanner, next_null, in_columns, read_cell, scan_column,
  scan_columns, unpack_row, n_set_bits,
}

-- The pointer to the values leaves at most n bytes.
abbrev LeavesAt : ℕ → Scanner → Type 0
LeavesAt n s = length s.ptr ≤ n

if-Ensures {ℓ κ} :
    {A : Type ℓ} (P : A → Type κ) (b : Bool) (m k : Outcome A)
    → Ensures P m
    → Ensures P k
    → Ensures P (if b then m else k)
if-Ensures P true m k hm hk = hm
if-Ensures P false m k hm hk = hk

next_null-LeavesAt : (n : ℕ) (s : Scanner) → LeavesAt n s → Ensures (LeavesAt n) (next_null s)
unfolding next_null
next_null-LeavesAt n s h =
    if-Ensures (LeavesAt n) (s.null_mask % 256 == 0) _ (ok s)
      (Ensures-bind Any (LeavesAt n) (peek 1 (le 1) s.null_ptr)
        (λ b. ok (record s { null_mask = 1; null_bits = b; null_ptr = drop 1 s.null_ptr }))
        (Ensures-Any (peek 1 (le 1) s.null_ptr)) (λ b _. h))
      h

module _ (c : Platform) (table : Table) where
  read_cell-LeavesAt :
      (n : ℕ) (f : Field) (s : Scanner)
      → LeavesAt n s
      → Ensures (LeavesAt n) (read_cell c table f s)
  unfolding read_cell
  read_cell-LeavesAt n f s h =
      if-Ensures (LeavesAt n) _ _ _
        (Ensures-bind Any (LeavesAt n) (fill_row table s.row s.i f null)
          (λ row. ok (record s { row = row })) (Ensures-Any (fill_row table s.row s.i f null))
          (λ row _. h))
        (Ensures-bind (Within s.ptr) (LeavesAt n) (unpack c f.kind s.ptr)
          (λ r. fill_row table s.row s.i f r.0 >>= λ row. ok (record s { row = row; ptr = r.1 }))
          (unpack-Within c f.kind s.ptr)
          (λ (value, ptr) less.
            Ensures-bind Any (LeavesAt n) (fill_row table s.row s.i f value)
              (λ row. ok (record s { row = row; ptr = ptr }))
              (Ensures-Any (fill_row table s.row s.i f value)) (λ row _. omega arith)))

  scan_column-LeavesAt :
      (n : ℕ) (cols : Bytes) (f : Field) (s : Scanner)
      → LeavesAt n s
      → Ensures (LeavesAt n) (scan_column c table cols f s)
  unfolding scan_column
  scan_column-LeavesAt n cols f s h =
      Ensures-bind Any (LeavesAt n) (in_columns cols s.i) _ (Ensures-Any (in_columns cols s.i))
        (λ present _.
          if-Ensures (LeavesAt n) present _ _
            (Ensures-bind (LeavesAt n) (LeavesAt n) (next_null s) _ (next_null-LeavesAt n s h)
              (λ s1 h1.
                Ensures-bind (LeavesAt n) (LeavesAt n) (read_cell c table f s1)
                  (λ s2. ok (record s2 { i = suc s2.i; null_mask = s2.null_mask * 2 }))
                  (read_cell-LeavesAt n f s1 h1) (λ s2 h2. h2)))
            h)

  scan_columns-LeavesAt :
      (n : ℕ) (cols : Bytes) (fields : List Field) (s : Scanner)
      → LeavesAt n s
      → Ensures (LeavesAt n) (scan_columns c table cols fields s)
  unfolding scan_columns
  scan_columns-LeavesAt n cols [] s h = h
  scan_columns-LeavesAt n cols (f ∷ fields) s h =
      Ensures-bind (LeavesAt n) (LeavesAt n) (scan_column c table cols f s)
        (scan_columns c table cols fields) (scan_column-LeavesAt n cols f s h)
        (λ s' h'. scan_columns-LeavesAt n cols fields s' h')

  abbrev at_start : AnyRow → Bytes → ℕ → ℕ → Scanner
  at_start fresh row set_count bits = record {
    i = 0;
    null_mask = 1;
    null_bits = bits;
    null_ptr = drop 1 row;
    ptr = drop ((set_count + 7) / 8) row;
    row = reserve_row table fresh;
  }

  -- What `unpack_row` does behind its check, once the columns are counted.
  abbrev rest_of : AnyRow → Bytes → Bytes → ℕ → Outcome (AnyRow × Bytes)
  rest_of fresh row cols set_count = peek 1 (le 1) row >>= (λ bits.
      scan_columns c table cols table.fields (at_start fresh row set_count bits) >>= λ s.
      ok (s.row, s.ptr))

  abbrev pub Leaves : ℕ → AnyRow × Bytes → Type 0
  Leaves m (row, t) = length t ≤ m

  rest_of-Leaves :
      (m : ℕ) (fresh : AnyRow) (row cols : Bytes) (k : ℕ)
      → (0 < length row → length row - (k + 7) / 8 ≤ m)
      → Ensures (Leaves m) (rest_of fresh row cols k)
  rest_of-Leaves m fresh row cols k h = elim (Bool-cases (ltb (length row) 1)) [
    | inl e ↦ rw e tt
    | inr e ↦ rw e (
        Ensures-bind (LeavesAt m) (Leaves m)
          (scan_columns c table cols table.fields (at_start fresh row k (le 1 row)))
          (λ s. ok (s.row, s.ptr))
          (scan_columns-LeavesAt m cols table.fields (at_start fresh row k (le 1 row))
            (omega (arith, length-drop ((k + 7) / 8) row, h (ground arith))))
          (λ s h'. h'))
  ]

  -- A row takes no byte less than none.
  pub unpack_row-Leaves :
      (fresh : AnyRow) (colcnt : ℕ) (row cols : Bytes)
      → Ensures (Leaves (length row)) (unpack_row c table fresh colcnt row cols)
  unfolding unpack_row
  unpack_row-Leaves fresh colcnt row cols =
      let check = throw_if (not (colcnt == length table.fields)) field_count_mismatch in
      Ensures-bind Any (Leaves (length row)) check
        (λ _. n_set_bits cols colcnt >>= rest_of fresh row cols) (Ensures-Any check)
        (λ _ _.
          Ensures-bind Any (Leaves (length row)) (n_set_bits cols colcnt) (rest_of fresh row cols)
            (Ensures-Any (n_set_bits cols colcnt))
            (λ k _. rest_of-Leaves (length row) fresh row cols k (λ _. omega arith)))

  abbrev pub Shorter : Bytes → AnyRow × Bytes → Type 0
  Shorter p (row, t) = length t < length p

  rest_of-Shorter :
      (fresh : AnyRow) (row cols : Bytes) (k : ℕ)
      → Ensures (Shorter row) (rest_of fresh row cols (suc k))
  rest_of-Shorter fresh [] cols k = tt
  rest_of-Shorter fresh (b ∷ row) cols k =
      Ensures-weaken (Leaves (length row)) (Shorter (b ∷ row))
        (rest_of fresh (b ∷ row) cols (suc k)) (λ (r, t) h. omega arith)
        (rest_of-Leaves (length row) fresh (b ∷ row) cols (suc k) (λ _. omega arith))

  -- Where a column is there, a row takes a byte or more.
  pub unpack_row-Shorter :
      (fresh : AnyRow) (colcnt : ℕ) (row cols : Bytes) (k : ℕ)
      → n_set_bits cols colcnt ≡ ok (suc k)
      → Ensures (Shorter row) (unpack_row c table fresh colcnt row cols)
  unfolding unpack_row
  unpack_row-Shorter fresh colcnt row cols k e =
      let check = throw_if (not (colcnt == length table.fields)) field_count_mismatch in
      Ensures-bind Any (Shorter row) check (λ _. n_set_bits cols colcnt >>= rest_of fresh row cols)
        (Ensures-Any check)
        (λ _ _.
          Ensures-bind (λ n. n ≡ suc k) (Shorter row) (n_set_bits cols colcnt)
            (rest_of fresh row cols) (rw e refl) (λ n q. rw q (rest_of-Shorter fresh row cols k)))
