-- ===== src/Position/Encode.antt =====
-- `Position::encodedGtidSize` and `encodeGtid`: the set of GTIDs as COM_BINLOG_DUMP_GTID takes it.
use libslave.Common.{
  ℕ, zero, suc, ◌+◌, ◌-◌, ◌*◌, Bytes, List, [], ◌∷◌, ◌++◌, Outcome, ok, throws, ◌>>=◌, bad_hex, leb,
  ◌&&◌, if◌then◌else◌, length, drop,
}
use libslave.Common.Int.{wrap64, inc}
use libslave.Wire.{Wire}
use libslave.Gtid.Defs.{Interval, GtidSet}

abbrev pub nibble : ℕ → Outcome ℕ
nibble c =
    if leb b'0' c && leb c b'9'
    then ok (c - b'0')
    else if leb b'A' c && leb c b'F'
    then ok (c - b'A' + 10)
    else if leb b'a' c && leb c b'f'
    then ok (c - b'a' + 10)
    else throws bad_hex

-- `src[i]` of a string that ends in a zero, which is no hex digit.
abbrev pub first_char : Bytes → ℕ
first_char [] = 0
first_char (c ∷ s) = c

-- `hex2bin` on n pairs of digits.
unfoldable pub hex2bin : ℕ → Bytes → Outcome Bytes
hex2bin zero s = ok []
hex2bin (suc n) s = do
  high ← nibble (first_char s)
  low ← nibble (first_char (drop 1 s))
  rest ← hex2bin n (drop 2 s)
  ok ((high * 16 + low) ∷ rest)

abbrev pub sum_sizes : GtidSet → ℕ
sum_sizes [] = 0
sum_sizes ((sid, l) ∷ s) = length l * 16 + 8 + 16 + sum_sizes s

unfoldable pub encoded_gtid_size : GtidSet → ℕ
encoded_gtid_size [] = 0
encoded_gtid_size (entry ∷ s) = 8 + sum_sizes (entry ∷ s)

module _ (w : Wire) where
  -- An interval goes out half open.
  unfoldable pub encode_intervals : List Interval → Bytes
  unfolding inc
  encode_intervals [] = []
  encode_intervals (iv ∷ l) =
      w.int8store (wrap64 iv.first) ++ (w.int8store (wrap64 (inc iv.second)) ++ encode_intervals l)

  unfoldable pub encode_entries : GtidSet → Outcome Bytes
  unfolding hex2bin encode_intervals
  encode_entries [] = ok []
  encode_entries ((sid, l) ∷ s) = do
    bin ← hex2bin 16 sid
    rest ← encode_entries s
    ok (bin ++ (w.int8store (length l) ++ (encode_intervals l ++ rest)))

  -- The bytes that are written from `buf` on.
  unfoldable pub encode_gtid : GtidSet → Outcome Bytes
  unfolding encode_entries
  encode_gtid [] = ok []
  encode_gtid (entry ∷ s) = do
    rest ← encode_entries (entry ∷ s)
    ok (w.int8store (length (entry ∷ s)) ++ rest)
