-- ===== src/Field/Defs.antt =====
-- types.h's values and field.h's classes. A class is a constructor of `Kind`, with the members that
-- its constructor in field.cpp sets.
use libslave.Common.{ℕ, ◌+◌, ◌/◌, Bool, Bytes, ltb, if◌then◌else◌}
use libslave.Common.Int.{ℤ}

-- `FieldValue`: a value with the C++ type that it has. A `float` or `double` is its bit pattern.
pub data FieldValue : Type 0 where
  null : FieldValue
  char : ℤ → FieldValue
  int : ℤ → FieldValue
  uint16 : ℕ → FieldValue
  int32 : ℤ → FieldValue
  uint32 : ℕ → FieldValue
  ulonglong : ℕ → FieldValue
  uint64 : ℕ → FieldValue
  float : ℕ → FieldValue
  double : ℕ → FieldValue
  string : Bytes → FieldValue

-- `is_old_storage` and `field_length` of a `Field_temporal`.
pub record Storage : Type 0 where
  pub is_old_storage : Bool
  pub field_length : ℕ

-- `intg`, `frac` and `field_length` of a `Field_decimal`.
pub record Decimal : Type 0 where
  pub intg : ℕ
  pub frac : ℕ
  pub field_length : ℕ

pub data Kind : Type 0 where
  tiny short medium long longlong real_float real_double year date : Kind
  timestamp time datetime : Storage → Kind
  varstring : (length_bytes field_length : ℕ) → Kind
  blob : (packlength : ℕ) → Kind
  enum set : (count_elements : ℕ) → Kind
  decimal : Decimal → Kind
  bit : (pack_length : ℕ) → Kind

pub record Field : Type 0 where
  pub field_type : Bytes
  pub field_name : Bytes
  pub kind : Kind

-- `Field_set::pack_length`
abbrev pub set_length : ℕ → ℕ
set_length n = let x = (n + 7) / 8 in if ltb 4 x then 8 else x

-- `pack_length()` of each class. That of a blob is `field_length`, which no constructor sets.
unfoldable pub pack_length : Kind → ℕ
pack_length tiny = 1
pack_length short = 2
pack_length medium = 3
pack_length long = 4
pack_length longlong = 8
pack_length real_float = 4
pack_length real_double = 8
pack_length year = 1
pack_length date = 3
pack_length (timestamp s) = s.field_length
pack_length (time s) = s.field_length
pack_length (datetime s) = s.field_length
pack_length (varstring length_bytes field_length) = field_length + length_bytes
pack_length (blob packlength) = 0
pack_length (enum n) = if ltb n 255 then 1 else 2
pack_length (set n) = set_length n
pack_length (decimal d) = d.field_length
pack_length (bit n) = n
