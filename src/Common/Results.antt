-- ===== src/Common/Results.antt =====
-- How a call ends: with a value, with a C++ exception, or by touching memory outside its buffer,
-- which C++ leaves undefined. `fault` is no value of the program: a theorem has to exclude it.
use mathlib.Core.Bool.{Bool, true, false}
use mathlib.Core.Option.{Option, none, some}
use libslave.Common.Lists.{Bytes}

-- One constructor for each message that the code throws.
pub data Error : Type 0 where
  bad_hex header_too_short rotate_too_short query_too_short table_map_too_short : Error
  rows_too_short gtid_too_short bad_binlog_version bad_format_description : Error
  bad_event bad_checksum field_count_mismatch not_processable_kind : Error
  length_error bad_precision bad_varchar bad_decimal bad_bit bad_bit_length : Error
  bad_packlength no_gtid_on_master bad_version bad_binlog_format query_failed : Error
  missing_column no_collation no_class_name type_not_found command_failed callback_failed : Error
  key_failed library_failed specific_failed thread_failed no_handle : Error
  -- A message that is put together: `throw_error` of nanomysql.h.
  client_failed : Bytes → Error

pub data Outcome {ℓ} (A : Type ℓ) : Type ℓ where
  ok : A → Outcome A
  throws : Error → Outcome A
  fault : Outcome A

-- What comes behind a call is skipped unless the call returns.
infixl 5 ◌>>=◌ ◌>>◌
abbrev pub ◌>>=◌ {ℓ κ} : {A : Type ℓ} → {B : Type κ} → Outcome A → (A → Outcome B) → Outcome B
◌>>=◌ fault next = fault
◌>>=◌ (throws e) next = throws e
◌>>=◌ (ok a) next = next a

abbrev pub ◌>>◌ {κ} : {B : Type κ} → Outcome (Unit {0}) → Outcome B → Outcome B
first >> next = first >>= λ done. next

-- `if (test) throw e;`
abbrev pub throw_if : Bool → Error → Outcome (Unit {0})
throw_if true e = throws e
throw_if false e = ok tt

abbrev pub or_fault {ℓ} : {A : Type ℓ} → Option A → Outcome A
or_fault none = fault
or_fault (some a) = ok a

abbrev pub or_throw {ℓ} : {A : Type ℓ} → Option A → Error → Outcome A
or_throw none e = throws e
or_throw (some a) e = ok a

-- What holds of the value where a call returns.
abbrev pub Ensures {ℓ κ} : {A : Type ℓ} → (A → Type κ) → Outcome A → Type κ
Ensures P (ok a) = P a
Ensures P (throws e) = Unit
Ensures P fault = Unit

pub Ensures-bind {ℓ κ μ ν} :
    {A : Type ℓ} {B : Type κ} (P : A → Type μ) (Q : B → Type ν) (m : Outcome A) (f : A → Outcome B)
    → Ensures P m
    → ((a : A) → P a → Ensures Q (f a))
    → Ensures Q (m >>= f)
Ensures-bind P Q (ok a) f h k = k a h
Ensures-bind P Q (throws e) f h k = tt
Ensures-bind P Q fault f h k = tt

pub Ensures-weaken {ℓ κ μ} :
    {A : Type ℓ} (P : A → Type κ) (Q : A → Type μ) (m : Outcome A)
    → ((a : A) → P a → Q a)
    → Ensures P m
    → Ensures Q m
Ensures-weaken P Q (ok a) f h = f a h
Ensures-weaken P Q (throws e) f h = tt
Ensures-weaken P Q fault f h = tt
