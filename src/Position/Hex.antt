-- ===== src/Position/Hex.antt =====
-- `bin2hex` of slave_log_event.cpp against `hex2bin` of binlog_pos.cpp, and the bytes that
-- `Position::encodeGtid` writes.
use libslave.Common.{
  ℕ, ◌*◌, ◌/◌, ◌%◌, ◌<◌, ◌≡◌, refl, ap, arith, Bytes, IsByte, All, List, [], ◌∷◌, ◌++◌, length,
  length-append, Outcome, ok,
}
use libslave.Common.Int.{wrap64, inc}
use libslave.Wire.{Wire, IsLittleEndian}
use libslave.Wire.Laws.{length-le_bytes}
use libslave.Gtid.Defs.{Interval, GtidSet}
use libslave.Event.Headers.{hex_digit, bin2hex}
use libslave.Position.Encode.{
  nibble, hex2bin, sum_sizes, encoded_gtid_size, encode_intervals, encode_entries, encode_gtid,
}

nibble-hex_digit : (n : ℕ) → n < 16 → nibble (hex_digit n) ≡ ok n
nibble-hex_digit n h = ground arith

-- `hex2bin` reads back the digits that `bin2hex` writes, for any string of bytes.
pub hex2bin-bin2hex : (s : Bytes) → All IsByte s → hex2bin (length s) (bin2hex s) ≡ ok s
unfolding hex2bin bin2hex
hex2bin-bin2hex [] h = refl
hex2bin-bin2hex (b ∷ s) h =
    rw
      (
        nibble-hex_digit (b / 16) (omega (arith, h.0)),
        nibble-hex_digit (b % 16) (omega arith),
        hex2bin-bin2hex s h.1,
      )
      (ap (λ c. ok (c ∷ s)) (omega arith))

-- A server's id is 16 bytes, written as 32 digits.
pub data IsSid : Bytes → Type 0 where
  sid : (s : Bytes) → All IsByte s → length s ≡ 16 → IsSid (bin2hex s)

abbrev pub HasSids : GtidSet → Type 0
HasSids [] = Unit {0}
HasSids ((s, l) ∷ rest) = IsSid s × HasSids rest

module _ (w : Wire) (law : IsLittleEndian w) where
  eight : (v : ℕ) → length (w.int8store v) ≡ 8
  eight v = rw (law.int8store_le v) (length-le_bytes 8 v)

  length-encode_intervals : (l : List Interval) → length (encode_intervals w l) ≡ length l * 16
  unfolding encode_intervals
  length-encode_intervals [] = omega arith
  length-encode_intervals (iv ∷ l) =
      let low = w.int8store (wrap64 iv.first) in
      let high = w.int8store (wrap64 (inc iv.second)) in
      let rest = encode_intervals w l in
      omega (
        arith,
        length-append low (high ++ rest),
        length-append high rest,
        eight (wrap64 iv.first),
        eight (wrap64 (inc iv.second)),
        length-encode_intervals l,
      )

  abbrev Encoded : Outcome Bytes → ℕ → Type 0
  Encoded r n = (b : Bytes) × (r ≡ ok b) × (length b ≡ n)

  -- A server's id and intervals, in front of what is encoded already.
  encode_entry :
      (s : Bytes) (l : List Interval) (rest : GtidSet)
      → IsSid s
      → Encoded (encode_entries w rest) (sum_sizes rest)
      → Encoded (encode_entries w ((s, l) ∷ rest)) (sum_sizes ((s, l) ∷ rest))
  unfolding encode_entries
  encode_entry _ l rest (sid s h e) (b, done, size) =
      let out = s ++ (w.int8store (length l) ++ (encode_intervals w l ++ b)) in
      let bin : hex2bin 16 (bin2hex s) ≡ ok s = rw e at (hex2bin-bin2hex s h) in
      (
        out,
        rw (bin, done) refl,
        omega (
          arith,
          length-append s (w.int8store (length l) ++ (encode_intervals w l ++ b)),
          length-append (w.int8store (length l)) (encode_intervals w l ++ b),
          length-append (encode_intervals w l) b,
          eight (length l),
          length-encode_intervals l,
        ),
      )

  encode_entries-size : (s : GtidSet) → HasSids s → Encoded (encode_entries w s) (sum_sizes s)
  encode_entries-size [] h = unfold encode_entries in ([], refl, refl)
  encode_entries-size ((s, l) ∷ rest) h = encode_entry s l rest h.0 (encode_entries-size rest h.1)

  -- With the documented byte order, where every server's id is 32 hex digits of 16 bytes,
  -- `encodeGtid` succeeds and writes as many bytes as `encodedGtidSize` counts.
  pub encode_gtid-encoded_gtid_size :
      (s : GtidSet)
      → HasSids s
      → (b : Bytes) × (encode_gtid w s ≡ ok b) × (length b ≡ encoded_gtid_size s)
  unfolding encode_gtid encoded_gtid_size
  encode_gtid-encoded_gtid_size [] h = ([], refl, refl)
  encode_gtid-encoded_gtid_size (entry ∷ s) h =
      let (b, done, size) = encode_entries-size (entry ∷ s) h in
      let front = w.int8store (length (entry ∷ s)) in
      (front ++ b, rw done refl, omega (arith, length-append front b, eight (length (entry ∷ s))))
