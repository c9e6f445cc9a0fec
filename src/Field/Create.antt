-- ===== src/Field/Create.antt =====
-- The constructors of field.cpp that read the SQL type, and the `Field` classes that
-- `Slave::createTable` picks by the type's name.
use libslave.Common.{
  ℕ, ◌+◌, ◌-◌, ◌*◌, ◌/◌, ◌%◌, ◌^◌, Bool, true, false, Bytes, [], ◌∷◌, Outcome, ok, throws, fault,
  ◌>>=◌, ltb, leb, ◌==◌, if◌then◌else◌, some, none, codes, take, drop, Option, or_throw, ◌||◌,
}
use libslave.Common.{bad_varchar, bad_decimal, bad_bit, bad_bit_length, no_class_name}
use libslave.Common.Int.{ℤ, pos, negsuc, pos_part, wrap32}
use libslave.Common.Maps.{bytes_eq}
use libslave.Clib.{scan_int, atoi, find, count}
use libslave.Field.Defs.{
  Kind, Storage, tiny, short, medium, long, longlong, real_float, real_double, year, date,
  timestamp, time, datetime, varstring, blob, enum, set, decimal, bit,
}
use libslave.Field.Temporal.{reset_timestamp, reset_datetime, reset_time}

-- `Field_enum` and `Field_set`: the commas of the type and one more, in an `unsigned short`.
unfoldable pub count_elements : Bytes → ℕ
unfolding count
count_elements type = (1 + count b',' type) % 2 ^ 16

-- `std::string(type, b + 1, e - b - 1)`: a length below zero wraps, and takes the whole rest.
abbrev between : Bytes → ℕ → ℕ → Bytes
between type b e = if ltb b e then take (e - b - 1) (drop (b + 1) type) else drop (b + 1) type

abbrev parenthesised : Bytes → Option Bytes
parenthesised type = elim (find b'(' type) [
  | none ↦ none
  | some b ↦ elim (find b')' type) [ none ↦ none | some e ↦ some (between type b e) ]
]

-- `Field_varstring`: the capacity in bytes, `symbols * collate.maxlen`, decides the length prefix.
unfoldable pub make_varstring : Bytes → ℕ → Outcome Kind
unfolding find atoi
make_varstring type maxlen = do
  inner ← or_throw (parenthesised type) bad_varchar
  let symbols = atoi inner
  ok (varstring (if ltb (pos_part symbols * maxlen) 256 then 1 else 2) (wrap32 symbols))

abbrev pub dig2bytes : ℕ → ℕ
dig2bytes n = if leb n 6 then (n + 1) / 2 else 4

-- `sscanf("(%d,%d)")` behind the first parenthesis.
abbrev two_ints : Bytes → Option (ℤ × ℤ)
unfolding scan_int
two_ints s = elim (scan_int s) [
  | none ↦ none
  | some (m, []) ↦ none
  | some (m, c ∷ r) ↦
      let second = scan_int r in
      if c == b',' then elim second [ none ↦ none | some (d, _) ↦ some (m, d) ] else none
]

-- `m <= 0 || m < d` is refused. A scale below zero would index `dig2bytes` below its start.
abbrev decimal_of : ℤ → ℤ → Outcome Kind
decimal_of (negsuc m) d = throws bad_decimal
decimal_of (pos m) (negsuc d) = if m == 0 then throws bad_decimal else fault
decimal_of (pos m) (pos d) =
    let intg = m - d in
    let length = intg / 9 * 4 + dig2bytes (intg % 9) + d / 9 * 4 + dig2bytes (d % 9) in
    if m == 0 || ltb m d
    then throws bad_decimal
    else ok (decimal (record { intg = intg; frac = d; field_length = length }))

unfoldable pub make_decimal : Bytes → Outcome Kind
unfolding find scan_int
make_decimal type = do
  b ← or_throw (find b'(' type) bad_decimal
  sizes ← or_throw (two_ints (drop (b + 1) type)) bad_decimal
  decimal_of sizes.0 sizes.1

-- A number of bits below zero gives a length of 0 or one that wraps above 8: both are refused.
abbrev bit_of : ℤ → Outcome Kind
bit_of (negsuc n) = throws bad_bit_length
bit_of (pos n) =
    let length = (n + 7) / 8 in
    if length == 0 || ltb 8 length then throws bad_bit_length else ok (bit length)

unfoldable pub make_bit : Bytes → Outcome Kind
unfolding find atoi
make_bit type = do inner ← or_throw (parenthesised type) bad_bit; bit_of (atoi inner)

-- The member that `reset(old_storage, true)` fills; what it held before is not read.
abbrev unset : Storage
unset = record { is_old_storage = false; field_length = 0 }

-- The class that `createTable` makes for a type name, its SQL type, the storage of the master and
-- the byte length of a character of the column's collation.
unfoldable pub make_kind : Bytes → Bytes → Bool → ℕ → Outcome Kind
unfolding count_elements make_varstring make_decimal make_bit reset_timestamp reset_datetime
    reset_time
make_kind name type old maxlen =
    if bytes_eq name (codes "int")
    then ok long
    else if bytes_eq name (codes "double")
    then ok real_double
    else if bytes_eq name (codes "float")
    then ok real_float
    else if bytes_eq name (codes "timestamp")
    then reset_timestamp type unset old true >>= (λ s. ok (timestamp s))
    else if bytes_eq name (codes "datetime")
    then reset_datetime type unset old true >>= (λ s. ok (datetime s))
    else if bytes_eq name (codes "date")
    then ok date
    else if bytes_eq name (codes "year")
    then ok year
    else if bytes_eq name (codes "time")
    then reset_time type unset old true >>= (λ s. ok (time s))
    else if bytes_eq name (codes "enum")
    then ok (enum (count_elements type))
    else if bytes_eq name (codes "set")
    then ok (set (count_elements type))
    else if bytes_eq name (codes "varchar")
    then make_varstring type maxlen
    else if bytes_eq name (codes "char")
    then make_varstring type maxlen
    else if bytes_eq name (codes "tinyint")
    then ok tiny
    else if bytes_eq name (codes "smallint")
    then ok short
    else if bytes_eq name (codes "mediumint")
    then ok medium
    else if bytes_eq name (codes "bigint")
    then ok longlong
    else if bytes_eq name (codes "text")
    then ok (blob 2)
    else if bytes_eq name (codes "tinytext")
    then ok (blob 1)
    else if bytes_eq name (codes "mediumtext")
    then ok (blob 3)
    else if bytes_eq name (codes "longtext")
    then ok (blob 4)
    else if bytes_eq name (codes "blob")
    then ok (blob 2)
    else if bytes_eq name (codes "tinyblob")
    then ok (blob 1)
    else if bytes_eq name (codes "mediumblob")
    then ok (blob 3)
    else if bytes_eq name (codes "longblob")
    then ok (blob 4)
    else if bytes_eq name (codes "decimal")
    then make_decimal type
    else if bytes_eq name (codes "bit")
    then make_bit type
    else throws no_class_name
