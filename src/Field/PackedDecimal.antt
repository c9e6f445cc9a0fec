-- ===== src/Field/PackedDecimal.antt =====
-- A whole packed decimal, as dec_util.cpp's `bin2dec` reads it.
use libslave.Common.{
  ℕ, zero, suc, ◌+◌, ◌-◌, ◌*◌, ◌/◌, ◌%◌, ◌^◌, ◌≤◌, ◌<◌, ◌≡◌, refl, arith, Bool, true, false, ◌&&◌,
  Bytes, List, [], ◌∷◌, ◌++◌, All, length, length-append, ◌==◌, if◌then◌else◌,
}
use mathlib.Core.List.{append_assoc, append-nil}
use libslave.Field.Create.{dig2bytes}
use libslave.Field.Decimal.{DecimalT, decimal_bin_size, flip_first, is_negative}
use libslave.Field.Groups.{Leads, group_bytes, group_bytes-Leads, length-group_bytes, digits_fit}
use libslave.Field.Decimals.{bytes_of, incomplete, complete, IsGroup, scaled, skip_zeros}

-- The digits of a decimal in groups of nine: in front of the point the incomplete group stands first,
-- behind the point it stands last.
pub record Digits : Type 0 where
  pub negative : Bool
  pub first_digits : ℕ
  pub first : ℕ
  pub whole : List ℕ
  pub behind : List ℕ
  pub last_digits : ℕ
  pub last : ℕ

abbrev pub scale_of : Digits → ℕ
scale_of d = 9 * length d.behind + d.last_digits

abbrev pub precision_of : Digits → ℕ
precision_of d = d.first_digits + 9 * length d.whole + scale_of d

-- Groups within their digits; a precision that MySQL has.
pub record IsDecimal (d : Digits) : Type 0 where
  pub first_few : d.first_digits < 9
  pub first_bound : d.first < 10 ^ d.first_digits
  pub whole_bound : All IsGroup d.whole
  pub behind_bound : All IsGroup d.behind
  pub last_few : d.last_digits < 9
  pub last_bound : d.last < 10 ^ d.last_digits
  pub not_empty : 0 < precision_of d
  pub not_large : precision_of d ≤ 65

abbrev pub body : Digits → Bytes
body d =
    bytes_of d.negative (incomplete d.first_digits d.first)
    ++ (bytes_of d.negative (complete d.whole)
        ++ (bytes_of d.negative (complete d.behind)
            ++ bytes_of d.negative (incomplete d.last_digits d.last)))

-- The format of a packed decimal: the highest bit of all is inverted.
abbrev pub packed : Digits → Bytes
packed d = flip_first (body d)

-- The groups in front of the point from the first that is not zero, and the digits that they have.
abbrev pub whole_groups : Digits → List ℕ
whole_groups d = if d.first == 0 then skip_zeros d.whole else (d.first ∷ d.whole)

abbrev pub whole_digits : Digits → ℕ
whole_digits d =
    if d.first == 0 then 9 * length (skip_zeros d.whole) else (9 * length d.whole + d.first_digits)

abbrev pub unpacked : DecimalT → Digits → DecimalT
unpacked make_zero d = if whole_digits d == 0 && scale_of d == 0 then make_zero else record {
  buf = (whole_groups d ++ d.behind) ++ scaled d.last_digits d.last;
  intg = whole_digits d;
  frac = scale_of d;
  sign = d.negative;
}

incomplete-Leads :
    (negative : Bool) (k x : ℕ) (p : Bytes)
    → k < 9
    → x < 10 ^ k
    → (k ≡ 0 → Leads negative p)
    → Leads negative (bytes_of negative (incomplete k x) ++ p)
incomplete-Leads negative zero x p low b h = h refl
incomplete-Leads negative (suc k) x p low b h =
    let n = dig2bytes (suc k) in
    rw (append_assoc (group_bytes negative n x) [] p)
      (group_bytes-Leads negative n x p (digits_fit (suc k) (omega arith) x (omega arith) b))

complete-Leads :
    (negative : Bool) (xs : List ℕ) (p : Bytes)
    → All IsGroup xs
    → (length xs ≡ 0 → Leads negative p)
    → Leads negative (bytes_of negative (complete xs) ++ p)
complete-Leads negative [] p b h = h refl
complete-Leads negative (x ∷ xs) p (b, _) h =
    let more = bytes_of negative (complete xs) in
    rw (append_assoc (group_bytes negative 4 x) more p)
      (group_bytes-Leads negative 4 x (more ++ p) (omega arith, omega arith, omega arith))

pub body-Leads : (d : Digits) → IsDecimal d → Leads d.negative (body d)
body-Leads d i =
    incomplete-Leads d.negative d.first_digits d.first _ i.first_few i.first_bound λ no_first.
      complete-Leads d.negative d.whole _ i.whole_bound λ no_whole.
        complete-Leads d.negative d.behind _ i.behind_bound λ no_behind.
          let last =
            incomplete-Leads d.negative d.last_digits d.last [] i.last_few i.last_bound
              λ no_last. let some_digit = i.not_empty in absurd (omega arith) in
          rw (append-nil (bytes_of d.negative (incomplete d.last_digits d.last))) at last

pub flip_first-flip_first :
    (negative : Bool) (p : Bytes) → Leads negative p → flip_first (flip_first p) ≡ p
flip_first-flip_first negative [] h = refl
flip_first-flip_first negative (b ∷ p) (small, _) =
    let back : ((b + 128) % 256 + 128) % 256 ≡ b = omega arith in rw back

pub is_negative-flip_first :
    (negative : Bool) (p rest : Bytes)
    → Leads negative p
    → is_negative (flip_first p ++ rest) ≡ negative
is_negative-flip_first negative [] rest h = absurd h
is_negative-flip_first true (b ∷ p) rest (small, e) = ground arith
is_negative-flip_first false (b ∷ p) rest (small, e) = ground arith

pub length-Leads : (negative : Bool) (p : Bytes) → Leads negative p → 0 < length p
length-Leads negative [] h = absurd h
length-Leads negative (b ∷ p) h = omega arith

dig2bytes_few : (k : ℕ) → dig2bytes k ≤ 4
dig2bytes_few k = ground arith

pub length-flip_first : (p : Bytes) → length (flip_first p) ≡ length p
length-flip_first [] = refl
length-flip_first (b ∷ p) = refl

length-incomplete :
    (negative : Bool) (k x : ℕ) → length (bytes_of negative (incomplete k x)) ≡ dig2bytes k
length-incomplete negative zero x = refl
length-incomplete negative (suc k) x =
    let n = dig2bytes (suc k) in
    rw (append-nil (group_bytes negative n x)) (length-group_bytes negative n x)

length-complete :
    (negative : Bool) (xs : List ℕ) → length (bytes_of negative (complete xs)) ≡ 4 * length xs
length-complete negative [] = refl
length-complete negative (x ∷ xs) = omega (
  arith,
  length-append (group_bytes negative 4 x) (bytes_of negative (complete xs)),
  length-group_bytes negative 4 x,
  length-complete negative xs,
)

-- The groups of nine digits in front of the incomplete group, and that group.
pub by_nine : (n k : ℕ) → k < 9 → ((9 * n + k) / 9 ≡ n) × ((9 * n + k) % 9 ≡ k)
by_nine n k few = (omega arith, omega arith)

pub intg_of : (d : Digits) → precision_of d - scale_of d ≡ 9 * length d.whole + d.first_digits
intg_of d = omega arith

pub length-body :
    (d : Digits) → IsDecimal d → length (body d) ≡ decimal_bin_size (precision_of d) (scale_of d)
unfolding decimal_bin_size
length-body d i =
    let first = bytes_of d.negative (incomplete d.first_digits d.first) in
    let whole = bytes_of d.negative (complete d.whole) in
    let behind = bytes_of d.negative (complete d.behind) in
    let last = bytes_of d.negative (incomplete d.last_digits d.last) in
    let (groups, rest) = by_nine (length d.whole) d.first_digits i.first_few in
    let (groups', rest') = by_nine (length d.behind) d.last_digits i.last_few in
    rw (intg_of d, groups, rest, groups', rest')
      (omega (
        arith,
        length-append first (whole ++ (behind ++ last)),
        length-append whole (behind ++ last),
        length-append behind last,
        length-incomplete d.negative d.first_digits d.first,
        length-incomplete d.negative d.last_digits d.last,
        length-complete d.negative d.whole,
        length-complete d.negative d.behind,
      ))

-- A buffer of 128 bytes is enough.
pub decimal_bin_size-few :
    (d : Digits) → IsDecimal d → decimal_bin_size (precision_of d) (scale_of d) ≤ 128
unfolding decimal_bin_size
decimal_bin_size-few d i =
    let large = i.not_large in
    let intg : precision_of d - scale_of d ≡ d.first_digits + 9 * length d.whole = omega arith in
    rw intg (
      omega (
        arith,
        dig2bytes_few ((d.first_digits + 9 * length d.whole) % 9),
        dig2bytes_few (scale_of d % 9),
      ))
