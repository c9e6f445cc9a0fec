-- ===== src/Rows/Image.antt =====
-- Row images for `unpack_row`: null bits for the columns of the event, then their values.
use libslave.Common.{
  ℕ, suc, ◌+◌, ◌*◌, ◌/◌, ◌≡◌, refl, ap, arith, Bool, true, false, Bytes, List, [], ◌∷◌, ◌++◌,
  Outcome, ok, throws, fault, ◌>>=◌, ◌==◌, drop, length, ==_iff,
}
use mathlib.Core.List.{append_assoc}
use libslave.Field.Defs.{FieldValue, null, Field}
use libslave.Field.Unpack.{Platform, peek_byte, unpack}
use libslave.Table.Defs.{Table, has_bit}
use libslave.Rows.Defs.{
  AnyRow, fill_row, reserve_row, Scanner, next_null, in_columns, read_cell, scan_column,
  scan_columns, unpack_row, n_set_bits,
}
use libslave.Rows.Bits.{HasBits, trues, n_set_bits-trues, in_columns-bit_at, At, next_null-At}

-- What an event holds of a column: nothing, a null, or a value and the bytes of its image.
pub data Cell : Type 0 where
  absent is_null : Cell
  image : FieldValue → Bytes → Cell

abbrev pub presents : List Cell → List Bool
presents [] = []
presents (absent ∷ cells) = false ∷ presents cells
presents (is_null ∷ cells) = true ∷ presents cells
presents (image v p ∷ cells) = true ∷ presents cells

-- The null bits, one for each column that is there.
abbrev pub nulls : List Cell → List Bool
nulls [] = []
nulls (absent ∷ cells) = nulls cells
nulls (is_null ∷ cells) = true ∷ nulls cells
nulls (image v p ∷ cells) = false ∷ nulls cells

abbrev pub images : List Cell → Bytes
images [] = []
images (absent ∷ cells) = images cells
images (is_null ∷ cells) = images cells
images (image v p ∷ cells) = p ++ images cells

module _ (c : Platform) where
  -- The cells are the columns' own: each image is one that the column's class reads.
  abbrev pub Encodes : List Field → List Cell → Type 0
  Encodes [] [] = Unit {0}
  Encodes [] (cell ∷ cells) = ⊥
  Encodes (f ∷ fields) [] = ⊥
  Encodes (f ∷ fields) (absent ∷ cells) = Encodes fields cells
  Encodes (f ∷ fields) (is_null ∷ cells) = Encodes fields cells
  Encodes (f ∷ fields) (image v p ∷ cells) =
      ((rest : Bytes) → unpack c f.kind (p ++ rest) ≡ ok (v, rest)) × Encodes fields cells

-- The row that holds the cells, in the order of the columns from the i-th on.
unfoldable pub filled : Table → ℕ → List Field → List Cell → AnyRow → Outcome AnyRow
filled table i [] cells row = ok row
filled table i (f ∷ fields) [] row = ok row
filled table i (f ∷ fields) (absent ∷ cells) row = filled table (suc i) fields cells row
filled table i (f ∷ fields) (is_null ∷ cells) row =
    fill_row table row i f null >>= λ r. filled table (suc i) fields cells r
filled table i (f ∷ fields) (image v p ∷ cells) row =
    fill_row table row i f v >>= λ r. filled table (suc i) fields cells r

abbrev finish : Scanner → Outcome (AnyRow × Bytes)
finish s = ok (s.row, s.ptr)

-- Both sides go on from the same call.
bind_both {ℓ κ μ ν ρ} :
    {A : Type ℓ} {S : Type κ} {T : Type μ} {B : Type ν} {R : Type ρ} (m : Outcome A) (K : A → S)
    (G : S → Outcome T) (H : T → Outcome R) (F : A → Outcome B) (E : B → Outcome R)
    → ((a : A) → (G (K a) >>= H) ≡ (F a >>= E))
    → (((m >>= λ a. ok (K a)) >>= G) >>= H) ≡ ((m >>= F) >>= E)
bind_both (ok a) K G H F E h = h a
bind_both (throws e) K G H F E h = refl
bind_both fault K G H F E h = refl

bind_ok {ℓ κ μ} :
    {A : Type ℓ} {S : Type κ} {T : Type μ} (m : Outcome A) (K : A → S) (L : S → T)
    → ((m >>= λ a. ok (K a)) >>= λ s. ok (L s)) ≡ (m >>= λ a. ok (L (K a)))
bind_ok (ok a) K L = refl
bind_ok (throws e) K L = refl
bind_ok fault K L = refl

-- The scanner behind a column that is there.
abbrev behind : Scanner → ℕ → ℕ → Bytes → Bytes → AnyRow → Scanner
behind s mask bits null_ptr ptr row = record {
  i = suc s.i;
  null_mask = mask * 2;
  null_bits = bits;
  null_ptr = null_ptr;
  ptr = ptr;
  row = row;
}

abbrev at_null : Scanner → ℕ → ℕ → Bytes → Scanner
at_null s mask bits null_ptr = record s { null_mask = mask; null_bits = bits; null_ptr = null_ptr }

module _ (c : Platform) (table : Table) (cols : Bytes) where
  scan_column_null :
      (f : Field) (s : Scanner) (mask bits : ℕ) (null_ptr : Bytes)
      → in_columns cols s.i ≡ ok true
      → next_null s ≡ ok (at_null s mask bits null_ptr)
      → has_bit bits mask ≡ true
      → scan_column c table cols f s
        ≡ (fill_row table s.row s.i f null >>= λ r. ok (behind s mask bits null_ptr s.ptr r))
  unfolding scan_column read_cell
  scan_column_null f s mask bits null_ptr there next null_bit =
      rw (there, next, null_bit)
        (bind_ok (fill_row table s.row s.i f null)
          (λ r. record (at_null s mask bits null_ptr) { row = r })
          (λ t. record t { i = suc t.i; null_mask = t.null_mask * 2 }))

  scan_column_value :
      (f : Field) (s : Scanner) (mask bits : ℕ) (null_ptr : Bytes) (v : FieldValue) (ptr : Bytes)
      → in_columns cols s.i ≡ ok true
      → next_null s ≡ ok (at_null s mask bits null_ptr)
      → has_bit bits mask ≡ false
      → unpack c f.kind s.ptr ≡ ok (v, ptr)
      → scan_column c table cols f s
        ≡ (fill_row table s.row s.i f v >>= λ r. ok (behind s mask bits null_ptr ptr r))
  unfolding scan_column read_cell
  scan_column_value f s mask bits null_ptr v ptr there next null_bit read =
      rw (there, next, null_bit, read)
        (bind_ok (fill_row table s.row s.i f v)
          (λ r. record (at_null s mask bits null_ptr) { row = r; ptr = ptr })
          (λ t. record t { i = suc t.i; null_mask = t.null_mask * 2 }))

module _ (c : Platform) (table : Table) (cols null_map rest : Bytes) where
  abbrev Reads : List Field → List Cell → ℕ → Scanner → Type 0
  Reads fields cells i s =
      (scan_columns c table cols fields s >>= finish)
      ≡ (filled table i fields cells s.row >>= λ r. ok (r, rest))

  scan_columns-cells :
      (fields : List Field) (cells : List Cell) (k : ℕ) (s : Scanner)
      → Encodes c fields cells
      → HasBits cols s.i (presents cells)
      → HasBits null_map k (nulls cells)
      → At null_map k s.null_mask s.null_bits s.null_ptr
      → s.ptr ≡ images cells ++ rest
      → Reads fields cells s.i s
  unfolding scan_columns filled
  scan_columns-cells [] [] k s enc there nul at e = ap (λ p. ok (s.row, p)) e
  scan_columns-cells [] (cell ∷ cells) k s enc there nul at e = elim enc [ ]
  scan_columns-cells (f ∷ fields) [] k s enc there nul at e = elim enc [ ]
  scan_columns-cells (f ∷ fields) (absent ∷ cells) k s enc there nul at e =
      let skip : scan_column c table cols f s ≡ ok (record s { i = suc s.i }) =
        unfold scan_column in rw (in_columns-bit_at cols s.i false there.0) in
      rw skip (scan_columns-cells fields cells k (record s { i = suc s.i }) enc there.1 nul at e)
  scan_columns-cells (f ∷ fields) (is_null ∷ cells) k s enc there nul at e =
      let (mask, bits, null_ptr, next, null_bit, at') = next_null-At null_map k s true at nul.0 in
      rw
        (scan_column_null c table cols f s mask bits null_ptr
          (in_columns-bit_at cols s.i true there.0) next null_bit)
        (bind_both (fill_row table s.row s.i f null) (behind s mask bits null_ptr s.ptr)
          (scan_columns c table cols fields) finish (filled table (suc s.i) fields cells)
          (λ r. ok (r, rest))
          (λ r.
            scan_columns-cells fields cells (suc k) (behind s mask bits null_ptr s.ptr r) enc
              there.1 nul.1 at' e))
  scan_columns-cells (f ∷ fields) (image v p ∷ cells) k s enc there nul at e =
      let (mask, bits, null_ptr, next, null_bit, at') = next_null-At null_map k s false at nul.0 in
      let tail : Bytes = images cells ++ rest in
      let read : unpack c f.kind s.ptr ≡ ok (v, tail) =
        rw (e, append_assoc p (images cells) rest) (enc.0 tail) in
      rw
        (scan_column_value c table cols f s mask bits null_ptr v tail
          (in_columns-bit_at cols s.i true there.0) next null_bit read)
        (bind_both (fill_row table s.row s.i f v) (behind s mask bits null_ptr tail)
          (scan_columns c table cols fields) finish (filled table (suc s.i) fields cells)
          (λ r. ok (r, rest))
          (λ r.
            scan_columns-cells fields cells (suc k) (behind s mask bits null_ptr tail r) enc.1
              there.1 nul.1 at' refl))

length-presents : (cells : List Cell) → length (presents cells) ≡ length cells
length-presents [] = refl
length-presents (absent ∷ cells) = ap suc (length-presents cells)
length-presents (is_null ∷ cells) = ap suc (length-presents cells)
length-presents (image v p ∷ cells) = ap suc (length-presents cells)

length-Encodes :
    (c : Platform) (fields : List Field) (cells : List Cell)
    → Encodes c fields cells
    → length cells ≡ length fields
length-Encodes c [] [] e = refl
length-Encodes c [] (cell ∷ cells) e = elim e [ ]
length-Encodes c (f ∷ fields) [] e = elim e [ ]
length-Encodes c (f ∷ fields) (absent ∷ cells) e = ap suc (length-Encodes c fields cells e)
length-Encodes c (f ∷ fields) (is_null ∷ cells) e = ap suc (length-Encodes c fields cells e)
length-Encodes c (f ∷ fields) (image v p ∷ cells) e = ap suc (length-Encodes c fields cells e.1)

-- A row image is a map of null bits and then the images of the values. Where the columns of the
-- event and the null bits are those of `cells`, and each image is read by its column's class,
-- `unpack_row` fills the row with the cells and returns the pointer behind the last image.
pub unpack_row-image :
    (c : Platform) (table : Table) (fresh : AnyRow) (cells : List Cell) (cols : Bytes) (b : ℕ)
    (tail rest : Bytes)
    → Encodes c table.fields cells
    → HasBits cols 0 (presents cells)
    → HasBits (b ∷ tail) 0 (nulls cells)
    → drop ((trues (presents cells) + 7) / 8) (b ∷ tail) ≡ images cells ++ rest
    → unpack_row c table fresh (length cells) (b ∷ tail) cols
      ≡ (filled table 0 table.fields cells (reserve_row table fresh) >>= λ r. ok (r, rest))
unfolding unpack_row
unpack_row-image c table fresh cells cols b tail rest enc there nul e =
    let counted : n_set_bits cols (length cells) ≡ ok (trues (presents cells)) =
      rw (length-presents cells) at (n_set_bits-trues cols (presents cells) there) in
    let same : (length cells == length table.fields) ≡ true =
      (==_iff _ _).1 (length-Encodes c table.fields cells enc) in
    rw (same, counted, peek_byte b tail)
      (scan_columns-cells c table cols (b ∷ tail) rest table.fields cells 0
        (record {
          i = 0;
          null_mask = 1;
          null_bits = b;
          null_ptr = tail;
          ptr = drop ((trues (presents cells) + 7) / 8) (b ∷ tail);
          row = reserve_row table fresh;
        })
        enc there nul (0, 0, omega arith, omega arith, refl, refl, refl) e)
