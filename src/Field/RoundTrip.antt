-- ===== src/Field/RoundTrip.antt =====
-- What the server stores for a column of each class but floats and decimals, and `unpack` on it.
use libslave.Common.{
  ℕ, ◌+◌, ◌-◌, ◌*◌, ap, All, ◌%◌, ◌^◌, ◌≤◌, ◌<◌, ◌≡◌, refl, ◌∙◌, arith, Bytes, [], ◌∷◌, ◌++◌,
  length, ok, ltb-false, lt→ltb, true, false,
}
use libslave.Common.Int.{pos, neg, signed, wrap32}
use libslave.Wire.{IsLittleEndian, le, le_bytes}
use libslave.Field.Defs.{
  FieldValue, char, int, uint16, int32, uint32, ulonglong, uint64, string, Kind, tiny, short,
  medium, long, longlong, year, date, timestamp, time, datetime, varstring, blob, enum, set, bit,
  set_length,
}
use libslave.Field.Temporal.{datetime_of, time_of}
use libslave.Field.Packed.{
  pack_datetime, pack_time, datetime_of-pack_datetime, time_of-pack_time, positive_time_of,
}
use libslave.Field.Unpack.{
  Platform, unpack, get_length, unpack_blob, unpack_varstring, unpack_enum, unpack_set,
  unpack_timestamp, unpack_datetime, unpack_time,
}
use libslave.Field.Images.{
  be_bytes, number, number_as, prefixed_as, le_prefix, one_byte, be_fraction, be_number, prefixed,
  prefixed_byte,
}

-- `Stores k v p`: the server stores the value v of a column of class k as the bytes p. An integer of
-- two bytes or more, and a date, stand here as the number without a sign that their bytes are. The
-- dates and times since MySQL 5.6.4 are packed field by field, with a fraction of a second behind them
-- that v does not have; a negative time has no fraction. Of the indices of an `enum`, those from 128 on
-- in one byte and from 32768 on in two are not here.
pub data Stores : Kind → FieldValue → Bytes → Type 0 where
  tinyint : (b : ℕ) → b < 256 → Stores tiny (char (signed 8 b)) (b ∷ [])
  smallint : (v : ℕ) → v < 256 ^ 2 → Stores short (uint16 v) (le_bytes 2 v)
  mediumint : (v : ℕ) → v < 256 ^ 3 → Stores medium (uint32 v) (le_bytes 3 v)
  integer : (v : ℕ) → v < 256 ^ 4 → Stores long (uint32 v) (le_bytes 4 v)
  bigint : (v : ℕ) → v < 256 ^ 8 → Stores longlong (ulonglong v) (le_bytes 8 v)
  year_byte : (b : ℕ) → b < 256 → Stores year (char (signed 8 b)) (b ∷ [])
  day : (v : ℕ) → v < 256 ^ 3 → Stores date (uint32 v) (le_bytes 3 v)
  old_timestamp :
      (v : ℕ)
      → v < 256 ^ 4
      → Stores
          (timestamp (record { is_old_storage = true; field_length = 4 }))
          (uint32 v)
          (le_bytes 4 v)
  new_timestamp :
      (v : ℕ) (fraction : Bytes)
      → v < 256 ^ 4
      → Stores
          (timestamp (record { is_old_storage = false; field_length = 4 + length fraction }))
          (uint32 v)
          (be_bytes 4 v ++ fraction)
  old_datetime :
      (v : ℕ)
      → v < 256 ^ 8
      → Stores
          (datetime (record { is_old_storage = true; field_length = 8 }))
          (ulonglong v)
          (le_bytes 8 v)
  new_datetime :
      (year month day hour minute second : ℕ) (fraction : Bytes)
      → year ≤ 9999
      → month ≤ 12
      → day < 32
      → hour < 32
      → minute < 64
      → second < 64
      → Stores
          (datetime (record { is_old_storage = false; field_length = 5 + length fraction }))
          (ulonglong (
            year * 10000000000
            + month * 100000000
            + day * 1000000
            + hour * 10000
            + minute * 100
            + second))
          (be_bytes 5 (pack_datetime 1 year month day hour minute second) ++ fraction)
  old_time :
      (v : ℕ)
      → v < 256 ^ 3
      → Stores
          (time (record { is_old_storage = true; field_length = 3 }))
          (int32 (signed 24 v))
          (le_bytes 3 v)
  new_time :
      (hour minute second : ℕ) (fraction : Bytes)
      → hour ≤ 838
      → minute < 64
      → second < 64
      → Stores
          (time (record { is_old_storage = false; field_length = 3 + length fraction }))
          (int32 (pos (hour * 10000 + minute * 100 + second)))
          (be_bytes 3 (2 ^ 23 + pack_time hour minute second) ++ fraction)
  negative_time :
      (hour minute second : ℕ) (fraction : Bytes)
      → hour ≤ 838
      → minute < 64
      → second < 64
      → 0 < pack_time hour minute second
      → All (λ b. b ≡ 0) fraction
      → Stores
          (time (record { is_old_storage = false; field_length = 3 + length fraction }))
          (int32 (neg (pos (hour * 10000 + minute * 100 + second))))
          (be_bytes 3 (2 ^ 23 - pack_time hour minute second) ++ fraction)
  short_text :
      (n : ℕ) (s : Bytes) → length s < 256 → Stores (varstring 1 n) (string s) (length s ∷ s)
  long_text :
      (n : ℕ) (s : Bytes)
      → length s < 256 ^ 2
      → Stores (varstring 2 n) (string s) (le_bytes 2 (length s) ++ s)
  tiny_blob : (s : Bytes) → length s < 256 → Stores (blob 1) (string s) (length s ∷ s)
  plain_blob :
      (s : Bytes) → length s < 256 ^ 2 → Stores (blob 2) (string s) (le_bytes 2 (length s) ++ s)
  medium_blob :
      (s : Bytes) → length s < 256 ^ 3 → Stores (blob 3) (string s) (le_bytes 3 (length s) ++ s)
  long_blob :
      (s : Bytes) → length s < 256 ^ 4 → Stores (blob 4) (string s) (le_bytes 4 (length s) ++ s)
  small_enum : (n b : ℕ) → n < 255 → b < 128 → Stores (enum n) (int (pos b)) (b ∷ [])
  large_enum : (n v : ℕ) → 255 ≤ n → v < 2 ^ 15 → Stores (enum n) (int (pos v)) (le_bytes 2 v)
  set_one : (n b : ℕ) → set_length n ≡ 1 → b < 256 → Stores (set n) (ulonglong b) (b ∷ [])
  set_two : (n v : ℕ) → set_length n ≡ 2 → v < 256 ^ 2 → Stores (set n) (ulonglong v) (le_bytes 2 v)
  set_three :
      (n v : ℕ) → set_length n ≡ 3 → v < 256 ^ 3 → Stores (set n) (ulonglong v) (le_bytes 3 v)
  set_four :
      (n v : ℕ) → set_length n ≡ 4 → v < 256 ^ 4 → Stores (set n) (ulonglong v) (le_bytes 4 v)
  set_eight :
      (n v : ℕ) → set_length n ≡ 8 → v < 256 ^ 8 → Stores (set n) (ulonglong v) (le_bytes 8 v)
  bits : (n v : ℕ) → v < 256 ^ n → Stores (bit n) (uint64 v) (be_bytes n v)

wrap_signed : (v : ℕ) → v < 2 ^ 16 → wrap32 (signed 16 v) % 2 ^ 16 ≡ v
wrap_signed v h = ground arith

-- With the documented byte order `unpack` takes the stored bytes off the front of the row image,
-- gives the value that was stored and leaves what follows, for the classes of columns and the values
-- in `Stores`: all classes but floats and decimals, a negative time without a fraction, and an `enum`'s
-- index up to 127 in one byte and up to 32767 in two.
pub unpack-Stores :
    (c : Platform)
    → IsLittleEndian c.wire
    → (kind : Kind) (value : FieldValue) (p rest : Bytes) → Stores kind value p
    → unpack c kind (p ++ rest) ≡ ok (value, rest)
unfolding unpack unpack_timestamp unpack_datetime unpack_time
unpack-Stores c law _ _ _ rest (tinyint b h) = one_byte (λ n. char (signed 8 n)) b rest
unpack-Stores c law _ _ _ rest (smallint v h) =
    number 2 v c.wire.uint2korr uint16 rest law.uint2korr_le h
unpack-Stores c law _ _ _ rest (mediumint v h) =
    number 3 v c.wire.uint3korr uint32 rest law.uint3korr_le h
unpack-Stores c law _ _ _ rest (integer v h) =
    number 4 v c.wire.uint4korr uint32 rest law.uint4korr_le h
unpack-Stores c law _ _ _ rest (bigint v h) =
    number 8 v c.wire.uint8korr ulonglong rest law.uint8korr_le h
unpack-Stores c law _ _ _ rest (year_byte b h) = one_byte (λ n. char (signed 8 n)) b rest
unpack-Stores c law _ _ _ rest (day v h) =
    number 3 v c.wire.uint3korr uint32 rest law.uint3korr_le h
unpack-Stores c law _ _ _ rest (old_timestamp v h) =
    number 4 v c.wire.uint4korr uint32 rest law.uint4korr_le h
unpack-Stores c law _ _ _ rest (new_timestamp v fraction h) = be_fraction 4 v uint32 fraction rest h
unpack-Stores c law _ _ _ rest (old_datetime v h) =
    number 8 v c.wire.uint8korr ulonglong rest law.uint8korr_le h
unpack-Stores c law _ _ _ rest (new_datetime y mo d h mi se fraction hy hmo hd hh hmi hse) =
    be_fraction 5 (pack_datetime 1 y mo d h mi se) (λ n. ulonglong (datetime_of n)) fraction rest
      (omega arith)
    ∙ ap (λ n. ok (ulonglong n, rest))
        (datetime_of-pack_datetime 1 y mo d h mi se hy hmo hd hh hmi hse)
unpack-Stores c law _ _ _ rest (old_time v h) =
    number_as 3 v c.wire.sint3korr (signed 24) int32 rest law.sint3korr_le h
unpack-Stores c law _ _ _ rest (new_time h mi se fraction hh hmi hse) =
    be_fraction 3 (2 ^ 23 + pack_time h mi se) (λ n. int32 (time_of n)) fraction rest (omega arith)
    ∙ ap (λ n. ok (int32 n, rest)) (positive_time_of h mi se hh hmi hse)
unpack-Stores c law _ _ _ rest (negative_time h mi se fraction hh hmi hse more _) =
    be_fraction 3 (2 ^ 23 - pack_time h mi se) (λ n. int32 (time_of n)) fraction rest (omega arith)
    ∙ ap (λ n. ok (int32 n, rest)) ((time_of-pack_time h mi se hh hmi hse more).1)
unpack-Stores c law _ _ _ rest (short_text n s h) = unfold unpack_varstring in prefixed_byte s rest
unpack-Stores c law _ _ _ rest (long_text n s h) =
    unfold unpack_varstring in prefixed 2 c.wire.uint2korr s rest law.uint2korr_le h
unpack-Stores c law _ _ _ rest (tiny_blob s h) =
    unfold unpack_blob get_length in prefixed_byte s rest
unpack-Stores c law _ _ _ rest (plain_blob s h) =
    let (size, value) = le_prefix 2 s rest h in
    unfold unpack_blob get_length in
    prefixed_as 2 (λ q. wrap32 (c.wire.sint2korr q) % 2 ^ 16) s rest
      (rw (law.sint2korr_le _ size, value) (wrap_signed (length s) h))
unpack-Stores c law _ _ _ rest (medium_blob s h) =
    unfold unpack_blob get_length in prefixed 3 c.wire.uint3korr s rest law.uint3korr_le h
unpack-Stores c law _ _ _ rest (long_blob s h) =
    unfold unpack_blob get_length in prefixed 4 c.wire.uint4korr s rest law.uint4korr_le h
unpack-Stores c law _ _ _ rest (small_enum n b hn hb) =
    let one = one_byte (λ m. int (signed 8 m)) b rest in
    unfold unpack_enum in rw (lt→ltb n 255 hn) (one ∙ rw (lt→ltb b 128 hb))
unpack-Stores c law _ _ _ rest (large_enum n v hn hv) =
    let two = number 2 v (le 2) (λ m. int (signed 16 m)) rest (λ p _. refl) (omega arith) in
    unfold unpack_enum in rw (ltb-false n 255 hn) (two ∙ rw (lt→ltb v (2 ^ 15) hv))
unpack-Stores c law _ _ _ rest (set_one n b e h) =
    unfold unpack_set in rw e (one_byte ulonglong b rest)
unpack-Stores c law _ _ _ rest (set_two n v e h) =
    unfold unpack_set in rw e (number 2 v c.wire.uint2korr ulonglong rest law.uint2korr_le h)
unpack-Stores c law _ _ _ rest (set_three n v e h) =
    unfold unpack_set in rw e (number 3 v c.wire.uint3korr ulonglong rest law.uint3korr_le h)
unpack-Stores c law _ _ _ rest (set_four n v e h) =
    unfold unpack_set in rw e (number 4 v c.wire.uint4korr ulonglong rest law.uint4korr_le h)
unpack-Stores c law _ _ _ rest (set_eight n v e h) =
    unfold unpack_set in rw e (number 8 v c.wire.uint8korr ulonglong rest law.uint8korr_le h)
unpack-Stores c law _ _ _ rest (bits n v h) = be_number n v uint64 rest h
