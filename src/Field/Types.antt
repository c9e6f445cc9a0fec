-- ===== src/Field/Types.antt =====
-- field.cpp and types.h: the C++ type of the values that a column gives, which a callback has to ask
-- for.
use libslave.Common.{
  ℕ, ◌≡◌, refl, Bool, true, false, Bytes, List, [], ◌∷◌, Outcome, ok, throws, fault, ◌>>=◌, some,
  Ensures, Ensures-weaken, if◌then◌else◌, codes, Bool-cases, inl, inr, arith,
}
use libslave.Common.Maps.{lookup, bytes_eq, bytes_eq_iff, string_eq}
use libslave.Field.Defs.{
  FieldValue, null, char, int, uint16, int32, uint32, ulonglong, uint64, float, double, string,
  Kind, tiny, short, medium, long, longlong, real_float, real_double, year, date, timestamp, time,
  datetime, varstring, blob, enum, set, decimal, bit, Storage,
}
use libslave.Field.Temporal.{reset_timestamp, reset_datetime, reset_time}
use libslave.Field.Create.{make_kind, make_varstring, make_decimal, make_bit}
use libslave.Field.Unpack.{
  Platform, unpack, unpack_timestamp, unpack_datetime, unpack_time, unpack_enum, unpack_set,
  unpack_varstring, unpack_blob, unpack_decimal,
}

pub data ValueType : Type 0 where
  type_null type_char type_int type_uint16 type_int32 type_uint32 : ValueType
  type_ulonglong type_uint64 type_float type_double type_string : ValueType

abbrev pub type_of : FieldValue → ValueType
type_of null = type_null
type_of (char n) = type_char
type_of (int n) = type_int
type_of (uint16 n) = type_uint16
type_of (int32 n) = type_int32
type_of (uint32 n) = type_uint32
type_of (ulonglong n) = type_ulonglong
type_of (uint64 n) = type_uint64
type_of (float n) = type_float
type_of (double n) = type_double
type_of (string s) = type_string

-- The type of the values for each name of an SQL type.
abbrev pub sql_types : List (Bytes × ValueType)
sql_types =
    (codes "tinyint", type_char)
    ∷ (codes "smallint", type_uint16)
    ∷ (codes "mediumint", type_uint32)
    ∷ (codes "int", type_uint32)
    ∷ (codes "bigint", type_ulonglong)
    ∷ (codes "float", type_float)
    ∷ (codes "double", type_double)
    ∷ (codes "decimal", type_double)
    ∷ (codes "bit", type_uint64)
    ∷ (codes "year", type_char)
    ∷ (codes "date", type_uint32)
    ∷ (codes "time", type_int32)
    ∷ (codes "datetime", type_ulonglong)
    ∷ (codes "timestamp", type_uint32)
    ∷ (codes "enum", type_int)
    ∷ (codes "set", type_ulonglong)
    ∷ (codes "char", type_string)
    ∷ (codes "varchar", type_string)
    ∷ (codes "tinytext", type_string)
    ∷ (codes "text", type_string)
    ∷ (codes "mediumtext", type_string)
    ∷ (codes "longtext", type_string)
    ∷ (codes "tinyblob", type_string)
    ∷ (codes "blob", type_string)
    ∷ (codes "mediumblob", type_string)
    ∷ (codes "longblob", type_string)
    ∷ []

abbrev kind_type : Kind → ValueType
kind_type tiny = type_char
kind_type short = type_uint16
kind_type medium = type_uint32
kind_type long = type_uint32
kind_type longlong = type_ulonglong
kind_type real_float = type_float
kind_type real_double = type_double
kind_type year = type_char
kind_type date = type_uint32
kind_type (timestamp s) = type_uint32
kind_type (time s) = type_int32
kind_type (datetime s) = type_ulonglong
kind_type (varstring length_bytes field_length) = type_string
kind_type (blob packlength) = type_string
kind_type (enum n) = type_int
kind_type (set n) = type_ulonglong
kind_type (decimal d) = type_double
kind_type (bit n) = type_uint64

-- A call whose value, if it returns, has this type.
abbrev Gives : ValueType → Outcome (FieldValue × Bytes) → Type 0
Gives t m = Ensures (λ r. type_of r.0 ≡ t) m

unpack-kind_type : (c : Platform) (k : Kind) (p : Bytes) → Gives (kind_type k) (unpack c k p)
unfolding unpack unpack_timestamp unpack_datetime unpack_time unpack_enum unpack_set
    unpack_varstring unpack_blob unpack_decimal
unpack-kind_type c tiny p = ground arith
unpack-kind_type c short p = ground arith
unpack-kind_type c medium p = ground arith
unpack-kind_type c long p = ground arith
unpack-kind_type c longlong p = ground arith
unpack-kind_type c real_float p = ground arith
unpack-kind_type c real_double p = ground arith
unpack-kind_type c year p = ground arith
unpack-kind_type c date p = ground arith
unpack-kind_type c (timestamp s) p = ground arith
unpack-kind_type c (time s) p = ground arith
unpack-kind_type c (datetime s) p = ground arith
unpack-kind_type c (varstring length_bytes field_length) p = ground arith
unpack-kind_type c (blob packlength) p = ground arith
unpack-kind_type c (enum n) p = ground arith
unpack-kind_type c (set n) p = ground arith
unpack-kind_type c (decimal d) p = ground arith
unpack-kind_type c (bit n) p = ground arith

-- A name that the table gives the type of the class.
abbrev Fits : Bytes → Outcome Kind → Type 0
Fits name m = Ensures (λ k. lookup name sql_types ≡ some (kind_type k)) m

-- One branch: where the name is this one, the class fits it.
Fits-if :
    (name w : Bytes) (m rest : Outcome Kind)
    → Fits w m
    → Fits name rest
    → Fits name (if bytes_eq name w then m else rest)
Fits-if name w m rest here there = elim (Bool-cases (bytes_eq name w)) [
  | inl e ↦ rw (e, (bytes_eq_iff name w).0 e) here
  | inr e ↦ rw e there
]

of_storage :
    (name : Bytes) (make : Storage → Kind) (m : Outcome Storage)
    → ((s : Storage) → lookup name sql_types ≡ some (kind_type (make s)))
    → Fits name (m >>= λ s. ok (make s))
of_storage name make (ok s) h = h s
of_storage name make (throws e) h = tt
of_storage name make fault h = tt

make_varstring-Fits :
    (name type : Bytes) (maxlen : ℕ)
    → lookup name sql_types ≡ some type_string
    → Fits name (make_varstring type maxlen)
unfolding make_varstring
make_varstring-Fits name type maxlen h = ground arith

make_decimal-Fits : (type : Bytes) → Fits (codes "decimal") (make_decimal type)
unfolding make_decimal lookup
make_decimal-Fits type = ground arith

make_bit-Fits : (type : Bytes) → Fits (codes "bit") (make_bit type)
unfolding make_bit lookup
make_bit-Fits type = ground arith

abbrev fresh : Storage
fresh = record { is_old_storage = false; field_length = 0 }

make_kind-Fits :
    (name type : Bytes) (old : Bool) (maxlen : ℕ) → Fits name (make_kind name type old maxlen)
unfolding make_kind lookup
make_kind-Fits name type old maxlen = Fits-if name (codes "int") _ _ refl (
    Fits-if name (codes "double") _ _ refl (
      Fits-if name (codes "float") _ _ refl (
        Fits-if name (codes "timestamp") _ _
          (of_storage (codes "timestamp") timestamp (reset_timestamp type fresh old true)
            (λ s. refl))
          (Fits-if name (codes "datetime") _ _
            (of_storage (codes "datetime") datetime (reset_datetime type fresh old true)
              (λ s. refl))
            (Fits-if name (codes "date") _ _ refl (
              Fits-if name (codes "year") _ _ refl (
                Fits-if name (codes "time") _ _
                  (of_storage (codes "time") time (reset_time type fresh old true) (λ s. refl))
                  (Fits-if name (codes "enum") _ _ refl (
                    Fits-if name (codes "set") _ _ refl (
                      Fits-if name (codes "varchar") _ _
                        (make_varstring-Fits (codes "varchar") type maxlen refl)
                        (Fits-if name (codes "char") _ _
                          (make_varstring-Fits (codes "char") type maxlen refl)
                          (Fits-if name (codes "tinyint") _ _ refl (
                            Fits-if name (codes "smallint") _ _ refl (
                              Fits-if name (codes "mediumint") _ _ refl (
                                Fits-if name (codes "bigint") _ _ refl (
                                  Fits-if name (codes "text") _ _ refl (
                                    Fits-if name (codes "tinytext") _ _ refl (
                                      Fits-if name (codes "mediumtext") _ _ refl (
                                        Fits-if name (codes "longtext") _ _ refl (
                                          Fits-if name (codes "blob") _ _ refl (
                                            Fits-if name (codes "tinyblob") _ _ refl (
                                              Fits-if name (codes "mediumblob") _ _ refl (
                                                Fits-if name (codes "longblob") _ _ refl (
                                                  Fits-if name (codes "decimal") _ _
                                                    (make_decimal-Fits type)
                                                    (Fits-if name (codes "bit") _ _
                                                      (make_bit-Fits type)
                                                      (tt))))))))))))))))))))))))))

-- A column is made only for a name of an SQL type that the table above has, and gives values of the
-- C++ type that the table has for it, whatever bytes it reads.
pub unpack-sql_types :
    (c : Platform) (name type : Bytes) (old : Bool) (maxlen : ℕ)
    → Ensures
        (λ k.
          (t : ValueType) × (lookup name sql_types ≡ some t)
          × ((p : Bytes) → Ensures (λ r. type_of r.0 ≡ t) (unpack c k p)))
        (make_kind name type old maxlen)
unpack-sql_types c name type old maxlen =
    Ensures-weaken (λ k. lookup name sql_types ≡ some (kind_type k))
      (λ k.
        (t : ValueType) × (lookup name sql_types ≡ some t)
        × ((p : Bytes) → Ensures (λ r. type_of r.0 ≡ t) (unpack c k p)))
      (make_kind name type old maxlen) (λ k fits. (kind_type k, fits, unpack-kind_type c k))
      (make_kind-Fits name type old maxlen)
