-- ===== src/Field/Unpack.antt =====
-- `unpack` of each class of field.cpp: the value at the front of a row image and the pointer behind
-- it. Memory is the bytes from the pointer to the end of the packet; to read on is a fault.
use libslave.Common.{
  ℕ, ◌+◌, ◌%◌, ◌^◌, Bytes, ◌∷◌, Outcome, ok, throws, fault, ◌>>=◌, ltb, ◌==◌, if◌then◌else◌, ◌≡◌,
  arith, take, drop, length, bad_packlength,
}
use libslave.Common.Int.{signed, wrap32}
use libslave.Wire.{Wire, le}
use libslave.Field.Defs.{
  FieldValue, char, int, uint16, int32, uint32, ulonglong, uint64, float, double, string, Storage,
  Decimal, Kind, tiny, short, medium, long, longlong, real_float, real_double, year, date,
  timestamp, time, datetime, varstring, blob, enum, set, decimal, bit, set_length,
}
use libslave.Field.Temporal.{be_from, datetime_of, time_of}
use libslave.Field.Decimal.{DecimalT, Doubles, bin2dec, dec2dbl}

-- What the MySQL client library and the machine's arithmetic give the decoder.
pub record Platform : Type 0 where
  pub wire : Wire
  -- `time(NULL)` once so many calls have left the library.
  pub clock : ℕ → ℕ
  pub make_zero : DecimalT
  pub doubles : Doubles

-- A read of n bytes at the pointer.
abbrev pub peek {ℓ} : {A : Type ℓ} → ℕ → (Bytes → A) → Bytes → Outcome A
peek n f p = if ltb (length p) n then fault else ok (f p)

-- `std::string(p, n)` and the pointer behind it.
abbrev pub text : ℕ → Bytes → Outcome (FieldValue × Bytes)
text n p = if ltb (length p) n then fault else ok (string (take n p), drop n p)

-- A class that reads n bytes and steps over `length` of them.
abbrev pub fixed : ℕ → ℕ → (Bytes → FieldValue) → Bytes → Outcome (FieldValue × Bytes)
fixed n length f p = do v ← peek n f p; ok (v, drop length p)

module _ (w : Wire) where
  -- `Field_blob::get_length`
  unfoldable pub get_length : ℕ → Bytes → Outcome ℕ
  unfolding le
  get_length packlength p =
      if packlength == 1
      then peek 1 (le 1) p
      else if packlength == 2
      then peek 2 (λ q. wrap32 (w.sint2korr q) % 2 ^ 16) p
      else if packlength == 3
      then peek 3 w.uint3korr p
      else if packlength == 4
      then peek 4 w.uint4korr p
      else throws bad_packlength

  unfoldable pub unpack_blob : ℕ → Bytes → Outcome (FieldValue × Bytes)
  unfolding get_length
  unpack_blob packlength p = do n ← get_length packlength p; text n (drop packlength p)

  unfoldable pub unpack_varstring : ℕ → Bytes → Outcome (FieldValue × Bytes)
  unfolding le
  unpack_varstring length_bytes p =
      if length_bytes == 1
      then peek 1 (le 1) p >>= (λ n. text n (drop 1 p))
      else peek 2 w.uint2korr p >>= (λ n. text n (drop 2 p))

  -- A `char`, and a `short` of the machine, are signed.
  unfoldable pub unpack_enum : ℕ → Bytes → Outcome (FieldValue × Bytes)
  unfolding le
  unpack_enum n p =
      if ltb n 255
      then fixed 1 1 (λ q. int (signed 8 (le 1 q))) p
      else fixed 2 2 (λ q. int (signed 16 (le 2 q))) p

  unfoldable pub unpack_set : ℕ → Bytes → Outcome (FieldValue × Bytes)
  unfolding le
  unpack_set n p =
      let size = set_length n in
      if size == 1
      then fixed 1 1 (λ q. ulonglong (le 1 q)) p
      else if size == 2
      then fixed 2 2 (λ q. ulonglong (w.uint2korr q)) p
      else if size == 3
      then fixed 3 3 (λ q. ulonglong (w.uint3korr q)) p
      else if size == 4
      then fixed 4 4 (λ q. ulonglong (w.uint4korr q)) p
      else fixed 8 size (λ q. ulonglong (w.uint8korr q)) p

  unfoldable pub unpack_timestamp : Storage → Bytes → Outcome (FieldValue × Bytes)
  unfolding be_from
  unpack_timestamp s p =
      if s.is_old_storage
      then fixed 4 s.field_length (λ q. uint32 (w.uint4korr q)) p
      else fixed 4 s.field_length (λ q. uint32 (be_from 0 4 q)) p

  unfoldable pub unpack_datetime : Storage → Bytes → Outcome (FieldValue × Bytes)
  unfolding be_from datetime_of
  unpack_datetime s p =
      if s.is_old_storage
      then fixed 8 s.field_length (λ q. ulonglong (w.uint8korr q)) p
      else fixed 5 s.field_length (λ q. ulonglong (datetime_of (be_from 0 5 q))) p

  unfoldable pub unpack_time : Storage → Bytes → Outcome (FieldValue × Bytes)
  unfolding be_from time_of
  unpack_time s p =
      if s.is_old_storage
      then fixed 3 s.field_length (λ q. int32 (w.sint3korr q)) p
      else fixed 3 s.field_length (λ q. int32 (time_of (be_from 0 3 q))) p

module _ (c : Platform) where
  -- `Field_decimal::dec2double` and `unpack`
  unfoldable pub unpack_decimal : Decimal → Bytes → Outcome (FieldValue × Bytes)
  unfolding bin2dec dec2dbl
  unpack_decimal d p = do
    t ← bin2dec c.make_zero p (d.intg + d.frac) d.frac
    v ← dec2dbl c.doubles t
    ok (double v, drop d.field_length p)

  unfoldable pub unpack : Kind → Bytes → Outcome (FieldValue × Bytes)
  unfolding le be_from unpack_blob unpack_varstring unpack_enum unpack_set unpack_timestamp
      unpack_datetime unpack_time unpack_decimal
  unpack tiny = fixed 1 1 (λ q. char (signed 8 (le 1 q)))
  unpack short = fixed 2 2 (λ q. uint16 (c.wire.uint2korr q))
  unpack medium = fixed 3 3 (λ q. uint32 (c.wire.uint3korr q))
  unpack long = fixed 4 4 (λ q. uint32 (c.wire.uint4korr q))
  unpack longlong = fixed 8 8 (λ q. ulonglong (c.wire.uint8korr q))
  unpack real_float = fixed 4 4 (λ q. float (le 4 q))
  unpack real_double = fixed 8 8 (λ q. double (le 8 q))
  unpack year = fixed 1 1 (λ q. char (signed 8 (le 1 q)))
  unpack date = fixed 3 3 (λ q. uint32 (c.wire.uint3korr q))
  unpack (timestamp s) = unpack_timestamp c.wire s
  unpack (time s) = unpack_time c.wire s
  unpack (datetime s) = unpack_datetime c.wire s
  unpack (varstring length_bytes field_length) = unpack_varstring c.wire length_bytes
  unpack (blob packlength) = unpack_blob c.wire packlength
  unpack (enum n) = unpack_enum c.wire n
  unpack (set n) = unpack_set c.wire n
  unpack (decimal d) = unpack_decimal d
  unpack (bit n) = fixed n n (λ q. uint64 (be_from 0 n q))

-- A byte that is there.
pub peek_byte : (b : ℕ) (p : Bytes) → peek 1 (le 1) (b ∷ p) ≡ ok b
unfolding le
peek_byte b p = ground arith
