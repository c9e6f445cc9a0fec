-- ===== src/Event/RowsEvent.antt =====
-- The head of a rows event, as the server writes it.
use libslave.Common.{
  ℕ, ◌+◌, ◌-◌, ◌/◌, ◌≤◌, ◌<◌, ◌^◌, ◌≡◌, refl, ap, sym, ◌∙◌, arith, Bool, true, false, Bytes, [],
  ◌∷◌, ◌++◌, ok, if◌then◌else◌, drop, length, length-append, ltb,
}
use libslave.Wire.{Wire, IsLittleEndian, le_bytes}
use libslave.Wire.Laws.{le-le_bytes, length-le_bytes}
use libslave.Field.Unpack.{peek}
use libslave.Event.Defs.{RowEventInfo}
use libslave.Event.Headers.{assign, row_event_info}
use libslave.Event.Pieces.{drop-drop, drop-front, assign-front}

no_bytes : (s : Bytes) → length s ≡ 0 → s ≡ []
no_bytes [] e = refl
no_bytes (b ∷ s) e = absurd (omega arith)

module _ (w : Wire) (little : IsLittleEndian w) (header extra cols cols_ai rows : Bytes)
    (id width : ℕ) where
  -- A read behind the head.
  skip :
      (n : ℕ)
      → length header ≡ 19
      → length extra ≡ n
      → drop (25 + n) (header ++ (le_bytes 6 id ++ (extra ++ (width ∷ cols ++ (cols_ai ++ rows)))))
        ≡ width ∷ cols ++ (cols_ai ++ rows)
  skip n h e =
      let columns : Bytes = width ∷ cols ++ (cols_ai ++ rows) in
      drop-drop 25 n (header ++ (le_bytes 6 id ++ (extra ++ columns)))
      ∙ (ap (drop n) (
            drop-drop 19 6 (header ++ (le_bytes 6 id ++ (extra ++ columns)))
            ∙ (ap (drop 6) (drop-front 19 header (le_bytes 6 id ++ (extra ++ columns)) h)
                ∙ drop-front 6 (le_bytes 6 id) (extra ++ columns) (length-le_bytes 6 id)))
          ∙ drop-front n extra columns e)

  read_id :
      id < 2 ^ 48
      → length header ≡ 19
      → peek 6 w.uint6korr
          (drop 19 (header ++ (le_bytes 6 id ++ (extra ++ (width ∷ cols ++ (cols_ai ++ rows))))))
        ≡ ok id
  read_id small h =
      let tail : Bytes = extra ++ (width ∷ cols ++ (cols_ai ++ rows)) in
      let at_id = drop-front 19 header (le_bytes 6 id ++ tail) h in
      let size : 6 ≤ length (le_bytes 6 id ++ tail) =
        omega (arith, length-append (le_bytes 6 id) tail, length-le_bytes 6 id) in
      let inside : ltb (length (le_bytes 6 id ++ tail)) 6 ≡ false = ground arith in
      rw (at_id, inside, little.uint6korr_le (le_bytes 6 id ++ tail) size)
        (ap ok (le-le_bytes 6 id tail (omega arith)))

  -- A bit map has a bit for each column.
  bit_map :
      (s t : Bytes)
      → length s ≡ (width + 7) / 8
      → (assign ((width + 7) / 8) (s ++ t) ≡ ok s) × (drop ((width + 7) / 8) (s ++ t) ≡ t)
  bit_map s t e =
      (ap (λ n. assign n (s ++ t)) (sym e) ∙ assign-front s t, drop-front ((width + 7) / 8) s t e)

  -- The after image has a bit map of its own in updates alone.
  abbrev pub parsed : Bool → ℕ → RowEventInfo
  parsed do_update event_len = record {
    m_width = width;
    m_table_id = id;
    m_cols = cols;
    m_cols_ai = cols_ai;
    m_rows_buf = rows;
    m_rows_tail =
        length (header ++ (le_bytes 6 id ++ (extra ++ (width ∷ cols ++ (cols_ai ++ rows)))))
        - event_len;
    has_after_image = do_update;
  }

  -- With the documented byte order, `Row_event_info` reads back the id of the table, the number of
  -- columns, the bit maps and the rows of an event: for an id of 48 bits, a header of 19 bytes, the
  -- two or four bytes behind the id that the server's version has, at most 250 columns, a bit for each
  -- in the bit maps, the second of which is there for updates alone, and an event of 31 bytes or more.
  pub row_event_info-parsed :
      (event_len : ℕ) (do_update master_ge_56 : Bool)
      → id < 2 ^ 48
      → length header ≡ 19
      → length extra ≡ (if master_ge_56 then 4 else 2)
      → width ≤ 250
      → length cols ≡ (width + 7) / 8
      → length cols_ai ≡ (if do_update then (width + 7) / 8 else 0)
      → 31 ≤ event_len
      → row_event_info w
          (header ++ (le_bytes 6 id ++ (extra ++ (width ∷ cols ++ (cols_ai ++ rows)))))
          event_len
          do_update
          master_ge_56
        ≡ ok (parsed do_update event_len)
  unfolding row_event_info
  row_event_info-parsed event_len true true small h e few c a long =
      let enough : ltb event_len 31 ≡ false = ground arith in
      let (first, next) = bit_map cols (cols_ai ++ rows) c in
      let (second, last) = bit_map cols_ai rows a in
      rw (
        enough,
        read_id small h,
        skip 4 h e,
        little.net_field_length_one width (cols ++ (cols_ai ++ rows)) (omega arith),
        first,
        next,
        second,
        last,
      )
  row_event_info-parsed event_len true false small h e few c a long =
      let enough : ltb event_len 29 ≡ false = ground arith in
      let (first, next) = bit_map cols (cols_ai ++ rows) c in
      let (second, last) = bit_map cols_ai rows a in
      rw (
        enough,
        read_id small h,
        skip 2 h e,
        little.net_field_length_one width (cols ++ (cols_ai ++ rows)) (omega arith),
        first,
        next,
        second,
        last,
      )
  row_event_info-parsed event_len false true small h e few c a long =
      let enough : ltb event_len 31 ≡ false = ground arith in
      let (first, next) = bit_map cols (cols_ai ++ rows) c in
      rw
        (
          enough,
          read_id small h,
          skip 4 h e,
          little.net_field_length_one width (cols ++ (cols_ai ++ rows)) (omega arith),
          first,
          next,
        )
        (rw (no_bytes cols_ai a))
  row_event_info-parsed event_len false false small h e few c a long =
      let enough : ltb event_len 29 ≡ false = ground arith in
      let (first, next) = bit_map cols (cols_ai ++ rows) c in
      rw
        (
          enough,
          read_id small h,
          skip 2 h e,
          little.net_field_length_one width (cols ++ (cols_ai ++ rows)) (omega arith),
          first,
          next,
        )
        (rw (no_bytes cols_ai a))
