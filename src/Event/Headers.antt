-- ===== src/Event/Headers.antt =====
-- slave_log_event.cpp: `Basic_event_info::parse` and the constructors of the event records.
use libslave.Common.{
  ℕ, ◌+◌, ◌-◌, ◌/◌, ◌%◌, ◌^◌, Bool, Bytes, [], ◌∷◌, Outcome, ok, throws, fault, ◌>>=◌, ◌>>◌, ltb,
  leb, if◌then◌else◌, take, drop, length, throw_if, or_fault, header_too_short, rotate_too_short,
  query_too_short, table_map_too_short, rows_too_short, gtid_too_short, length_error,
}
use libslave.Wire.{Wire, le}
use libslave.Field.Unpack.{peek}
use libslave.Event.Defs.{
  BasicEventInfo, RotateEventInfo, QueryEventInfo, TableMapEventInfo, RowEventInfo, GtidEventInfo,
}

-- `hex[nibble]`
abbrev pub hex_digit : ℕ → ℕ
hex_digit n = if ltb n 10 then b'0' + n else b'a' + (n - 10)

unfoldable pub bin2hex : Bytes → Bytes
bin2hex [] = []
bin2hex (b ∷ s) = hex_digit (b / 16) ∷ hex_digit (b % 16) ∷ bin2hex s

-- `s.assign(p, n)`
abbrev pub assign : ℕ → Bytes → Outcome Bytes
assign n p = if ltb (length p) n then fault else ok (take n p)

-- A `char` that is widened to an unsigned 32-bit number.
abbrev pub widen_char : ℕ → ℕ
widen_char b = if ltb b 128 then b else b + (2 ^ 32 - 256)

-- `unsigned int` and `size_t` arithmetic wraps.
abbrev pub sub32 : ℕ → ℕ → ℕ
sub32 a b = (a + 2 ^ 32 - b % 2 ^ 32) % 2 ^ 32

abbrev pub sub64 : ℕ → ℕ → ℕ
sub64 a b = (a + 2 ^ 64 - b % 2 ^ 64) % 2 ^ 64

-- `assign` of a length above that of the longest string throws `length_error`.
abbrev pub assign_size : ℕ → Bytes → Outcome Bytes
assign_size n p = if leb (2 ^ 63) (n + 1) then throws length_error else assign n p

module _ (w : Wire) where
  -- The lengths of the headers are written out: 17 is `LOG_POS_OFFSET + 4`.
  unfoldable pub parse : Bytes → ℕ → Outcome BasicEventInfo
  unfolding le
  parse buf event_len = do
    throw_if (ltb event_len 17) header_too_short
    type ← peek 1 (le 1) (drop 4 buf)
    time ← peek 4 w.uint4korr buf
    id ← peek 4 w.uint4korr (drop 5 buf)
    pos ← peek 4 w.uint4korr (drop 13 buf)
    ok (record {
      type = widen_char type;
      log_pos = pos;
      when = time;
      server_id = id;
      buf = buf;
      event_len = event_len;
    })

  unfoldable pub rotate_event_info : Bytes → ℕ → Outcome RotateEventInfo
  rotate_event_info buf event_len = do
    throw_if (ltb event_len 27) rotate_too_short
    pos ← peek 8 w.uint8korr (drop 19 buf)
    ident ← assign (event_len - 27) (drop 27 buf)
    ok (record { ident_len = event_len - 27; new_log_ident = ident; pos = pos })

  unfoldable pub query_event_info : Bytes → ℕ → Outcome QueryEventInfo
  unfolding le
  query_event_info buf event_len = do
    throw_if (ltb event_len 32) query_too_short
    db_char ← peek 1 (le 1) (drop 27 buf)
    let db_len = widen_char db_char
    status_vars_len ← peek 2 w.uint2korr (drop 30 buf)
    let data_len = sub32 (sub32 event_len 32) status_vars_len
    db_name ← assign_size db_len (drop (32 + status_vars_len) buf)
    query ←
        assign_size (sub64 (sub64 data_len db_len) 1) (drop (32 + status_vars_len + db_len + 1) buf)
    ok (record { db_name = db_name; query = query })

  unfoldable pub table_map_event_info : Bytes → ℕ → Outcome TableMapEventInfo
  unfolding le
  table_map_event_info buf event_len = do
    throw_if (ltb event_len 29) table_map_too_short
    id ← peek 6 w.uint6korr (drop 19 buf)
    let p_dblen = drop 27 buf
    dblen ← peek 1 (le 1) p_dblen
    dbnam ← assign dblen (drop 1 p_dblen)
    let p_tblen = drop (dblen + 2) p_dblen
    tblen ← peek 1 (le 1) p_tblen
    tblnam ← assign tblen (drop 1 p_tblen)
    (width, p_width) ← or_fault (w.net_field_length (drop (tblen + 2) p_tblen))
    types ← assign width p_width
    ok (record { m_table_id = id; m_tblnam = tblnam; m_dbnam = dbnam; m_cols_types = types })

  unfoldable pub row_event_info : Bytes → ℕ → Bool → Bool → Outcome RowEventInfo
  row_event_info buf event_len do_update master_ge_56 = do
    let rows_header_len : ℕ = if master_ge_56 then 10 else 8
    throw_if (ltb event_len (19 + rows_header_len + 2)) rows_too_short
    id ← peek 6 w.uint6korr (drop 19 buf)
    (width, start) ← or_fault (w.net_field_length (drop (19 + rows_header_len) buf))
    let size = (width + 7) / 8
    cols ← assign size start
    cols_ai ← if do_update then assign size (drop size start) else ok []
    ok (record {
      m_width = width;
      m_table_id = id;
      m_cols = cols;
      m_cols_ai = cols_ai;
      m_rows_buf = if do_update then drop size (drop size start) else drop size start;
      m_rows_tail = length buf - event_len;
      has_after_image = do_update;
    })

  unfoldable pub gtid_event_info : Bytes → ℕ → Outcome GtidEventInfo
  unfolding bin2hex
  gtid_event_info buf event_len = do
    throw_if (ltb event_len 44) gtid_too_short
    sid ← assign 16 (drop 20 buf)
    gno ← peek 8 w.sint8korr (drop 36 buf)
    ok (record { m_sid = bin2hex sid; m_gno = gno })
