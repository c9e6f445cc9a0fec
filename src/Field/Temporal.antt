-- ===== src/Field/Temporal.antt =====
-- field.cpp's `Field_timestamp`, `Field_datetime` and `Field_time`: the bytes that a column of each
-- storage takes, and the numbers that the packed formats since MySQL 5.6.4 stand for.
use libslave.Common.{
  ℕ, zero, suc, ◌+◌, ◌-◌, ◌*◌, ◌/◌, ◌%◌, ◌^◌, Bool, true, false, not, Bytes, [], ◌∷◌, Outcome, ok,
  throws, fault, bad_precision, leb, ◌==◌, if◌then◌else◌, some, none, codes,
}
use libslave.Common.Int.{ℤ, pos, negsuc, neg}
use libslave.Clib.{after_prefix, scan_int}
use libslave.Field.Defs.{Storage}

-- `sscanf(field_type, "timestamp(%d)", &digits)` with `digits` 0 before the call.
unfoldable pub precision : Bytes → Bytes → ℤ
unfolding after_prefix scan_int
precision format type = elim (after_prefix format type) [
  | none ↦ pos 0
  | some s ↦ elim (scan_int s) [ none ↦ pos 0 | some (n, r) ↦ n ]
]

-- The `switch (digits)` of the three `reset` functions; `whole` is the length with no fraction.
unfoldable pub storage_length : ℕ → ℤ → Outcome ℕ
storage_length whole (negsuc n) = throws bad_precision
storage_length whole (pos n) =
    if n == 0
    then ok whole
    else if leb n 2
    then ok (whole + 1)
    else if leb n 4
    then ok (whole + 2)
    else if leb n 6
    then ok (whole + 3)
    else throws bad_precision

-- `!ctor_call && is_old_storage == old_storage`
abbrev not_needed : Bool → Bool → Bool → Bool
not_needed was new true = false
not_needed true new false = new
not_needed false new false = not new

-- `reset(old_storage, ctor_call)`, over the class's format and its two lengths.
abbrev reset : Bytes → ℕ → ℕ → Bytes → Storage → Bool → Bool → Outcome Storage
unfolding precision storage_length
reset format old whole type s old_storage ctor_call =
    if not_needed s.is_old_storage old_storage ctor_call
    then ok s
    else if old_storage
    then ok (record { is_old_storage = true; field_length = old })
    else elim (storage_length whole (precision format type)) [
      | ok n ↦ ok (record { is_old_storage = false; field_length = n })
      | throws e ↦ throws e
      | fault ↦ fault
    ]

-- `(data >> k) & (2^n - 1)`
abbrev pub bits : ℕ → ℕ → ℕ → ℕ
bits k n v = v / 2 ^ k % 2 ^ n

unfoldable pub reset_timestamp : Bytes → Storage → Bool → Bool → Outcome Storage
unfolding precision storage_length
reset_timestamp = reset (codes "timestamp(") 4 4

unfoldable pub reset_datetime : Bytes → Storage → Bool → Bool → Outcome Storage
unfolding precision storage_length
reset_datetime = reset (codes "datetime(") 8 5

unfoldable pub reset_time : Bytes → Storage → Bool → Bool → Outcome Storage
unfolding precision storage_length
reset_time = reset (codes "time(") 3 3

-- The first n bytes, the highest first.
unfoldable pub be_from : ℕ → ℕ → Bytes → ℕ
be_from acc zero p = acc
be_from acc (suc n) [] = acc
be_from acc (suc n) (b ∷ p) = be_from (acc * 256 + b) n p

-- `Field_datetime::unpack` on the packed word. `data` is never initialised: only the lowest five
-- bytes of the word are stored, so what stands above them is any number.
unfoldable pub datetime_of : ℕ → ℕ
datetime_of data40 =
    bits 0 6 data40
    + bits 6 6 data40 * 100
    + bits 12 5 data40 * 10000
    + bits 17 5 data40 * 1000000
    + bits 22 17 data40 % 13 * 100000000
    + bits 22 17 data40 / 13 * 10000000000

-- `Field_time::unpack` on the packed word, which has 24 bits: `(1 << 23) - data` is a 32-bit number.
unfoldable pub time_of : ℕ → ℤ
time_of data24 =
    let sign = data24 / 2 ^ 23 % 2 in
    let magnitude = if sign == 0 then (2 ^ 32 + 2 ^ 23 - data24) % 2 ^ 32 else data24 in
    let tmp = bits 0 6 magnitude + bits 6 6 magnitude * 100 + bits 12 10 magnitude * 10000 in
    if sign == 0 then neg (pos tmp) else pos tmp
