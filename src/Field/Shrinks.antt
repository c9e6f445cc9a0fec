-- ===== src/Field/Shrinks.antt =====
-- How far `unpack` moves the pointer: the bytes behind it are no more than those before.
use libslave.Common.{
  ℕ, ◌+◌, ◌≤◌, arith, Bool, true, false, Bytes, Outcome, ok, throws, fault, ◌>>=◌, Ensures,
  Ensures-bind, length, length-drop, drop, ltb, ◌==◌, if◌then◌else◌, Bool-cases, inl, inr,
}
use libslave.Field.Defs.{
  FieldValue, Decimal, Kind, tiny, short, medium, long, longlong, real_float, real_double, year,
  date, timestamp, time, datetime, varstring, blob, enum, set, decimal, bit, set_length, double,
}
use libslave.Field.Decimal.{bin2dec, dec2dbl}
use libslave.Field.Unpack.{
  Platform, text, unpack_blob, unpack_varstring, unpack_enum, unpack_set, unpack_timestamp,
  unpack_datetime, unpack_time, unpack_decimal, unpack,
}

abbrev pub Within {ℓ} : {A : Type ℓ} → Bytes → A × Bytes → Type 0
Within p (a, q) = length q ≤ length p

abbrev pub Any {ℓ} : {A : Type ℓ} → A → Type 0
Any a = Unit {0}

pub Ensures-Any {ℓ} : {A : Type ℓ} (m : Outcome A) → Ensures Any m
Ensures-Any (ok a) = tt
Ensures-Any (throws e) = tt
Ensures-Any fault = tt

pub drop-le : (n : ℕ) (p : Bytes) → length (drop n p) ≤ length p
drop-le n p = omega (arith, length-drop n p)

step-Within :
    (step : ℕ) (m : Outcome FieldValue) (p : Bytes)
    → Ensures (Within p) (m >>= λ v. ok (v, drop step p))
step-Within step m p =
    Ensures-bind Any (Within p) m (λ v. ok (v, drop step p)) (Ensures-Any m) (λ v _. drop-le step p)

text-Within : (step n : ℕ) (p : Bytes) → Ensures (Within p) (text n (drop step p))
text-Within step n p = elim (Bool-cases (ltb (length (drop step p)) n)) [
  | inl e ↦ rw e tt
  | inr e ↦ rw e (omega (arith, length-drop n (drop step p), length-drop step p))
]

if-Within :
    (b : Bool) (r t : Outcome (FieldValue × Bytes)) (p : Bytes)
    → Ensures (Within p) r
    → Ensures (Within p) t
    → Ensures (Within p) (if b then r else t)
if-Within true r t p hr ht = hr
if-Within false r t p hr ht = ht

-- A length that is read first, and the text behind it.
prefix-Within :
    (step : ℕ) (m : Outcome ℕ) (p : Bytes) → Ensures (Within p) (m >>= λ n. text n (drop step p))
prefix-Within step m p =
    Ensures-bind Any (Within p) m (λ n. text n (drop step p)) (Ensures-Any m)
      (λ n _. text-Within step n p)

set-Within : (c : Platform) (n : ℕ) (p : Bytes) → Ensures (Within p) (unpack_set c.wire n p)
unfolding unpack_set
set-Within c n p = if-Within (set_length n == 1) _ _ p (step-Within 1 _ p) (
    if-Within (set_length n == 2) _ _ p (step-Within 2 _ p) (
      if-Within (set_length n == 3) _ _ p (step-Within 3 _ p)
        (if-Within (set_length n == 4) _ _ p (step-Within 4 _ p) (step-Within (set_length n) _ p))))

decimal-Within :
    (c : Platform) (d : Decimal) (p : Bytes) → Ensures (Within p) (unpack_decimal c d p)
unfolding unpack_decimal
decimal-Within c d p =
    let read = bin2dec c.make_zero p (d.intg + d.frac) d.frac in
    Ensures-bind Any (Within p) read
      (λ t. dec2dbl c.doubles t >>= λ v. ok (double v, drop d.field_length p)) (Ensures-Any read)
      (λ t _.
        Ensures-bind Any (Within p) (dec2dbl c.doubles t)
          (λ v. ok (double v, drop d.field_length p)) (Ensures-Any (dec2dbl c.doubles t))
          (λ v _. drop-le d.field_length p))

-- `unpack` leaves at most the bytes that it is given.
pub unpack-Within : (c : Platform) (kind : Kind) (p : Bytes) → Ensures (Within p) (unpack c kind p)
unfolding unpack
unpack-Within c tiny p = step-Within 1 _ p
unpack-Within c short p = step-Within 2 _ p
unpack-Within c medium p = step-Within 3 _ p
unpack-Within c long p = step-Within 4 _ p
unpack-Within c longlong p = step-Within 8 _ p
unpack-Within c real_float p = step-Within 4 _ p
unpack-Within c real_double p = step-Within 8 _ p
unpack-Within c year p = step-Within 1 _ p
unpack-Within c date p = step-Within 3 _ p
unpack-Within c (timestamp s) p =
    unfold unpack_timestamp in
    if-Within s.is_old_storage _ _ p (step-Within s.field_length _ p)
      (step-Within s.field_length _ p)
unpack-Within c (time s) p =
    unfold unpack_time in
    if-Within s.is_old_storage _ _ p (step-Within s.field_length _ p)
      (step-Within s.field_length _ p)
unpack-Within c (datetime s) p =
    unfold unpack_datetime in
    if-Within s.is_old_storage _ _ p (step-Within s.field_length _ p)
      (step-Within s.field_length _ p)
unpack-Within c (varstring length_bytes field_length) p =
    unfold unpack_varstring in
    if-Within (length_bytes == 1) _ _ p (prefix-Within 1 _ p) (prefix-Within 2 _ p)
unpack-Within c (blob packlength) p = unfold unpack_blob in prefix-Within packlength _ p
unpack-Within c (enum n) p =
    unfold unpack_enum in if-Within (ltb n 255) _ _ p (step-Within 1 _ p) (step-Within 2 _ p)
unpack-Within c (set n) p = set-Within c n p
unpack-Within c (decimal d) p = decimal-Within c d p
unpack-Within c (bit n) p = step-Within n _ p
