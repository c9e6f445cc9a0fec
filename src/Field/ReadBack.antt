-- ===== src/Field/ReadBack.antt =====
-- dec_util.cpp's `bin2dec` on the format of a packed decimal.
use libslave.Common.{
  ℕ, ◌+◌, ◌*◌, ◌<◌, ◌≡◌, ◌∙◌, arith, false, Bytes, List, [], ◌++◌, length, length-append, take,
  take-append, ltb, ltb-false, ◌==◌, Bool-cases, inl, inr, if◌then◌else◌, some, ok,
}
use mathlib.Core.List.{append-nil}
use libslave.Field.Decimal.{
  DecimalT, bin2dec, decimal_bin_size, flip_first, is_negative, head_group, and_then, groups,
  tail_group, push, push_intg,
}
use libslave.Field.Decimals.{
  bytes_of, incomplete, complete, stored, scaled, groups-bytes_of, head_group-bytes_of,
  tail_group-bytes_of, stored-push, stored-push_intg, stored-skip_zeros,
}
use libslave.Field.PackedDecimal.{
  Digits, IsDecimal, precision_of, scale_of, body, packed, whole_groups, whole_digits, unpacked,
  body-Leads, length-body, by_nine, intg_of, flip_first-flip_first, is_negative-flip_first,
  length-flip_first, length-Leads, decimal_bin_size-few,
}

abbrev decimal : List ℕ → ℕ → Digits → DecimalT
decimal buf intg d = record { buf = buf; intg = intg; frac = scale_of d; sign = d.negative }

-- What the reading of the digits in front of the point leaves.
stored-whole :
    (d : Digits)
    → IsDecimal d
    → (let start = decimal [] (9 * length d.whole + d.first_digits) d in
        stored
          (push_intg 9)
          d.whole
          (if d.first_digits == 0 then start else push_intg d.first_digits d.first start))
      ≡ decimal (whole_groups d) (whole_digits d) d
stored-whole d i = elim (Bool-cases (d.first == 0)) [
  | inl z ↦ elim (Bool-cases (d.first_digits == 0)) [
    | inl none_first ↦
        rw (z, none_first) (stored-skip_zeros (scale_of d) d.negative d.whole _ (ground arith))
    | inr some_first ↦
        rw (z, some_first) (stored-skip_zeros (scale_of d) d.negative d.whole _ (omega arith))
  ]
  | inr z ↦ elim (Bool-cases (d.first_digits == 0)) [
    | inl none_first ↦
        let empty : d.first_digits ≡ 0 = ground arith in
        let b : d.first < 1 = rw empty at i.first_bound in absurd (ground arith)
    | inr some_first ↦
        rw (z, some_first) (stored-push_intg (scale_of d) d.negative d.whole [] d.first _)
  ]
]

-- The reads of `bin2dec`, one behind the other, over the bytes of a packed decimal.
reads-body :
    (d : Digits)
    → IsDecimal d
    → (let start = decimal [] (9 * length d.whole + d.first_digits) d in
        and_then
          (and_then
            (and_then
              (head_group d.negative d.first_digits (record { from = body d; out = start }))
              (groups (push_intg 9) d.negative (length d.whole)))
            (groups push d.negative (length d.behind)))
          (tail_group d.negative d.last_digits))
      ≡ some (record {
        from = [];
        out =
            decimal
              ((whole_groups d ++ d.behind) ++ scaled d.last_digits d.last)
              (whole_digits d)
              d;
      })
reads-body d i =
    let start = decimal [] (9 * length d.whole + d.first_digits) d in
    let last = bytes_of d.negative (incomplete d.last_digits d.last) in
    let behind = bytes_of d.negative (complete d.behind) ++ last in
    let whole = bytes_of d.negative (complete d.whole) ++ behind in
    let read_last =
      tail_group-bytes_of d.negative d.last_digits d.last
        (decimal (whole_groups d ++ d.behind) (whole_digits d) d) [] i.last_few i.last_bound in
    rw (
      head_group-bytes_of d.negative d.first_digits d.first start whole i.first_few i.first_bound,
      groups-bytes_of (push_intg 9) d.negative d.whole _ behind i.whole_bound,
      stored-whole d i,
      groups-bytes_of push d.negative d.behind _ last i.behind_bound,
      stored-push d.behind _,
      ← append-nil last,
      read_last,
      stored-push (scaled d.last_digits d.last) _,
    )

copied :
    (d : Digits) (rest : Bytes)
    → IsDecimal d
    → flip_first (take (decimal_bin_size (precision_of d) (scale_of d)) (packed d ++ rest)) ≡ body d
copied d rest i =
    let size = length-flip_first (body d) ∙ length-body d i in
    rw (← size, take-append (packed d) rest)
      (flip_first-flip_first d.negative (body d) (body-Leads d i))

negative_read :
    (d : Digits) (rest : Bytes) → IsDecimal d → is_negative (packed d ++ rest) ≡ d.negative
negative_read d rest i = is_negative-flip_first d.negative (body d) rest (body-Leads d i)

-- The tests of `bin2dec` on the lengths.
lengths :
    (d : Digits) (rest : Bytes)
    → IsDecimal d
    → (let size = decimal_bin_size (precision_of d) (scale_of d) in
        ((length (packed d ++ rest) == 0) ≡ false)
        × (ltb 128 size ≡ false)
        × (ltb (length (packed d ++ rest)) size ≡ false))
lengths d rest i =
    let size = length-flip_first (body d) ∙ length-body d i in
    let all = length-append (packed d) rest in
    let some_byte = length-Leads d.negative (body d) (body-Leads d i) in
    let flipped = length-flip_first (body d) in
    let nonempty : 0 < length (packed d ++ rest) = omega arith in
    (ground arith, ltb-false 128 _ (decimal_bin_size-few d i), ltb-false _ _ (omega arith))

-- For a decimal of at least one and at most 65 digits, of either sign, `bin2dec` reads its packed format
-- back, whatever stands behind it: the groups of digits, without those in front that are zero, as many
-- digits in front of the point as these have, the scale and the sign. Where no digits are left, on either
-- side of the point, the result is that of `decimal_make_zero`.
pub bin2dec-packed :
    (make_zero : DecimalT) (d : Digits) (rest : Bytes)
    → IsDecimal d
    → bin2dec make_zero (packed d ++ rest) (precision_of d) (scale_of d) ≡ ok (unpacked make_zero d)
unfolding bin2dec
bin2dec-packed make_zero d rest i =
    let (some_byte, fits, enough) = lengths d rest i in
    let (whole, first) = by_nine (length d.whole) d.first_digits i.first_few in
    let (behind, last) = by_nine (length d.behind) d.last_digits i.last_few in
    rw (
      some_byte,
      fits,
      enough,
      negative_read d rest i,
      copied d rest i,
      intg_of d,
      whole,
      first,
      behind,
      last,
      reads-body d i,
    )
