-- ===== src/Event/TableMap.antt =====
-- A table map event, as the server writes it.
use libslave.Common.{
  ℕ, suc, ◌+◌, ◌≤◌, ◌<◌, ◌^◌, ◌≡◌, ap, ◌∙◌, arith, false, Bytes, ◌∷◌, ◌++◌, ok, drop, length,
  length-append, drop-append, ltb,
}
use libslave.Wire.{Wire, IsLittleEndian, le_bytes}
use libslave.Wire.Laws.{le-le_bytes, length-le_bytes}
use libslave.Field.Unpack.{peek, peek_byte}
use libslave.Event.Pieces.{drop-drop, drop-front, assign-front}
use libslave.Event.Headers.{table_map_event_info}

-- A text with its length in front, and a zero behind it.
abbrev pub named : Bytes → Bytes → Bytes
named s rest = length s ∷ s ++ (0 ∷ rest)

drop-named : (s rest : Bytes) → drop (length s + 2) (named s rest) ≡ rest
drop-named s rest =
    ap (λ k. drop k (named s rest)) (step (length s))
    ∙ (drop-drop (suc (length s)) 1 (named s rest) ∙ ap (drop 1) (drop-append s (0 ∷ rest)))
  where
    step : (n : ℕ) → n + 2 ≡ suc n + 1
    step n = omega arith

-- What stands behind the header and the flags.
abbrev pub body : Bytes → Bytes → Bytes → Bytes → Bytes
body db table types rest = named db (named table (length types ∷ types ++ rest))

module _ (w : Wire) (little : IsLittleEndian w) (header flags db table types rest : Bytes)
    (id : ℕ) where
  drop-table_map :
      length header ≡ 19
      → length flags ≡ 2
      → drop 27 (header ++ (le_bytes 6 id ++ (flags ++ body db table types rest)))
        ≡ body db table types rest
  drop-table_map h f =
      drop-drop 19 8 (header ++ (le_bytes 6 id ++ (flags ++ body db table types rest)))
      ∙ (ap (drop 8) (drop-front 19 header (le_bytes 6 id ++ (flags ++ body db table types rest)) h)
          ∙ (drop-drop 6 2 (le_bytes 6 id ++ (flags ++ body db table types rest))
              ∙ (ap (drop 2) (
                    drop-front 6 (le_bytes 6 id) (flags ++ body db table types rest)
                      (length-le_bytes 6 id))
                  ∙ drop-front 2 flags (body db table types rest) f)))

  read-id :
      id < 2 ^ 48
      → length header ≡ 19
      → peek 6 w.uint6korr
          (drop 19 (header ++ (le_bytes 6 id ++ (flags ++ body db table types rest))))
        ≡ ok id
  read-id small h =
      let at_id = drop-front 19 header (le_bytes 6 id ++ (flags ++ body db table types rest)) h in
      let size : 6 ≤ length (le_bytes 6 id ++ (flags ++ body db table types rest)) = omega (
        arith,
        length-append (le_bytes 6 id) (flags ++ body db table types rest),
        length-le_bytes 6 id,
      ) in
      let inside : ltb (length (le_bytes 6 id ++ (flags ++ body db table types rest))) 6 ≡ false =
        ground arith in
      rw
        (
          at_id,
          inside,
          little.uint6korr_le (le_bytes 6 id ++ (flags ++ body db table types rest)) size,
        )
        (ap ok (le-le_bytes 6 id (flags ++ body db table types rest) (omega arith)))

  -- With the documented byte order, `Table_map_event_info` reads back the id, the names and the types
  -- of a table map event, whatever stands behind the types: for an id of 48 bits, a header of 19
  -- bytes and flags of two, at most 250 columns, and an event of 29 bytes or more.
  pub table_map_event_info-table_map :
      (event_len : ℕ)
      → id < 2 ^ 48
      → length header ≡ 19
      → length flags ≡ 2
      → length types ≤ 250
      → 29 ≤ event_len
      → table_map_event_info w
          (header ++ (le_bytes 6 id ++ (flags ++ body db table types rest)))
          event_len
        ≡ ok (record { m_table_id = id; m_tblnam = table; m_dbnam = db; m_cols_types = types })
  unfolding table_map_event_info
  table_map_event_info-table_map event_len small h f few long =
      let enough : ltb event_len 29 ≡ false = ground arith in
      let tail : Bytes = named table (length types ∷ types ++ rest) in
      let columns : Bytes = length types ∷ types ++ rest in
      rw (
        enough,
        read-id small h,
        drop-table_map h f,
        peek_byte (length db) (db ++ (0 ∷ tail)),
        assign-front db (0 ∷ tail),
        drop-named db tail,
        peek_byte (length table) (table ++ (0 ∷ columns)),
        assign-front table (0 ∷ columns),
        drop-named table columns,
        little.net_field_length_one (length types) (types ++ rest) (omega arith),
        assign-front types rest,
      )
