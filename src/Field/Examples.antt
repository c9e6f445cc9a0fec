-- ===== src/Field/Examples.antt =====
-- A platform to run the decoders on, and values that they read.
use libslave.Common.{
  ◌+◌, ◌-◌, ◌*◌, ◌/◌, ◌^◌, ◌≡◌, refl, arith, [], ◌∷◌, ◌++◌, ok, false, true, codes,
}
use libslave.Common.Int.{pos, neg, negsuc}
use libslave.Wire.Laws.{plain, plain-IsLittleEndian}
use libslave.Field.Defs.{string, varstring, int, enum}
use libslave.Wire.{le}
use libslave.Field.Temporal.{datetime_of, time_of}
use libslave.Field.Unpack.{Platform, unpack, unpack_enum}
use libslave.Field.Packed.{pack_datetime, pack_time, datetime_of-pack_datetime, time_of-pack_time}
use libslave.Common.{Bytes, some, Ensures}
use libslave.Common.Maps.{lookup, string_eq}
use libslave.Field.Create.{make_kind}
use libslave.Field.Types.{ValueType, type_of, sql_types, unpack-sql_types}
use libslave.Field.Decimal.{bin2dec}
use libslave.Field.PackedDecimal.{Digits, packed}
use libslave.Field.Groups.{group_bytes}
use libslave.Field.Images.{be_bytes}
use libslave.Field.ReadBack.{bin2dec-packed}
use libslave.Field.RoundTrip.{short_text, unpack-Stores}

-- Doubles stand for the whole numbers that they are near.
abbrev pub sample : Platform
sample = record {
  wire = plain;
  clock = λ n. 1400000000 + n;
  make_zero = record { buf = 0 ∷ []; intg = 1; frac = 0; sign = false };
  doubles = record {
    of_nat = λ n. n;
    add = λ a b. a + b;
    mul = λ a b. a * b;
    div = λ a b. a / b;
    negate = λ a. 2 ^ 63 + a;
  };
}

unpack-Stores_example :
    unpack sample (varstring 1 10) (3 ∷ codes "abc" ++ codes "rest")
    ≡ ok (string (codes "abc"), codes "rest")
unpack-Stores_example =
    unpack-Stores sample plain-IsLittleEndian (varstring 1 10) (string (codes "abc"))
      (3 ∷ codes "abc") (codes "rest") (short_text 10 (codes "abc") (omega arith))

-- 2014-05-17 23:59:30, with the sign bit set and a word of rubbish above it.
datetime_of-pack_datetime_example :
    datetime_of (pack_datetime 12345 2014 5 17 23 59 30) ≡ 20140517235930
datetime_of-pack_datetime_example =
    datetime_of-pack_datetime 12345 2014 5 17 23 59 30 (omega arith) (omega arith) (omega arith)
      (omega arith) (omega arith) (omega arith)

time_of-pack_time_example :
    (time_of (2 ^ 23 + pack_time 12 34 56) ≡ pos 123456)
    × (time_of (2 ^ 23 - pack_time 12 34 56) ≡ neg (pos 123456))
time_of-pack_time_example =
    time_of-pack_time 12 34 56 (omega arith) (omega arith) (omega arith) (omega arith)

unpack-sql_types_example :
    Ensures
      (λ k.
        (t : ValueType) × (lookup (codes "int") sql_types ≡ some t)
        × ((p : Bytes) → Ensures (λ r. type_of r.0 ≡ t) (unpack sample k p)))
      (make_kind (codes "int") (codes "int(10)") false 0)
unpack-sql_types_example = unpack-sql_types sample (codes "int") (codes "int(10)") false 0

-- -1234567890.1234, a DECIMAL(14,4), the example of MySQL's documentation.
abbrev minus : Digits
minus = record {
  negative = true;
  first_digits = 1;
  first = 1;
  whole = 234567890 ∷ [];
  behind = [];
  last_digits = 4;
  last = 1234;
}

packed-minus : packed minus ≡ 126 ∷ 242 ∷ 4 ∷ 199 ∷ 45 ∷ 251 ∷ 45 ∷ []
unfolding group_bytes be_bytes
packed-minus = refl

bin2dec-packed_example :
    bin2dec sample.make_zero (packed minus ++ (200 ∷ [])) 14 4
    ≡ ok (record { buf = 1 ∷ 234567890 ∷ 123400000 ∷ []; intg = 10; frac = 4; sign = true })
bin2dec-packed_example = bin2dec-packed sample.make_zero minus (200 ∷ []) (record {
  first_few = omega arith;
  first_bound = omega arith;
  whole_bound = (omega arith, tt);
  behind_bound = tt;
  last_few = omega arith;
  last_bound = omega arith;
  not_empty = omega arith;
  not_large = omega arith;
})

unpack-enum_large : unpack sample (enum 250) (200 ∷ []) ≡ ok (int (negsuc 55), [])
unfolding unpack unpack_enum le
unpack-enum_large = refl
