-- ===== src/Field/Decimal.antt =====
-- dec_util.cpp: a packed decimal is read into groups of nine digits (`bin2dec`), and those into a
-- double (`dec2dbl`). decimal.h's `decimal_make_zero` and the arithmetic of doubles are parameters.
use libslave.Common.{
  ℕ, zero, suc, ◌+◌, ◌-◌, ◌*◌, ◌/◌, ◌%◌, ◌^◌, Bool, false, ◌&&◌, Bytes, List, [], ◌∷◌, ◌++◌,
  Outcome, ok, fault, ◌>>=◌, ltb, leb, ◌==◌, if◌then◌else◌, some, none, take, drop, length, Option,
}
use libslave.Field.Create.{dig2bytes}
use libslave.Field.Temporal.{be_from}

-- `decimal_t`, with the digit groups that are written to its buffer.
pub record DecimalT : Type 0 where
  pub buf : List ℕ
  pub intg : ℕ
  pub frac : ℕ
  pub sign : Bool

abbrev pub dig_base : ℕ
dig_base = 1000000000

unfoldable pub decimal_bin_size : ℕ → ℕ → ℕ
decimal_bin_size precision scale =
    let intg = precision - scale in
    intg / 9 * 4 + dig2bytes (intg % 9) + scale / 9 * 4 + dig2bytes (scale % 9)

-- `mi_sint1korr` to `mi_sint4korr`, high byte first, as the 32-bit pattern of the `dec1`.
unfoldable pub mi_sintkorr : ℕ → Bytes → ℕ
unfolding be_from
mi_sintkorr n p =
    let v = be_from 0 n p in if ltb v (2 ^ (8 * n - 1)) then v else v + 2 ^ 32 - 2 ^ (8 * n)

-- `x ^ mask` with a mask of 0 or -1.
unfoldable pub masked : Bool → ℕ → ℕ
masked negative x = if negative then 2 ^ 32 - 1 - x else x

-- The variables that the loops of `bin2dec` change; `buf` is what stands below the buffer pointer.
pub record Reader : Type 0 where
  pub from : Bytes
  pub out : DecimalT

-- `if (buf > to->buf || *buf != 0) buf++; else to->intg -= n`
abbrev pub push_intg : ℕ → ℕ → DecimalT → DecimalT
push_intg n x t = elim t.buf [
  | [] ↦ if x == 0 then record t { intg = t.intg - n } else record t { buf = x ∷ [] }
  | b ∷ rest ↦ record t { buf = t.buf ++ (x ∷ []) }
]

abbrev pub push : ℕ → DecimalT → DecimalT
push x t = record t { buf = t.buf ++ (x ∷ []) }

-- The incomplete group in front; `none` is `goto err`.
unfoldable pub head_group : Bool → ℕ → Reader → Option Reader
unfolding mi_sintkorr masked
head_group negative intg0x r =
    let n = dig2bytes intg0x in
    let x = masked negative (mi_sintkorr n r.from) in
    if intg0x == 0
    then some r
    else if leb (10 ^ (intg0x + 1)) x
    then none
    else some (record { from = drop n r.from; out = push_intg intg0x x r.out })

-- Complete groups, in front of the point and behind it.
unfoldable pub groups : (ℕ → DecimalT → DecimalT) → Bool → ℕ → Reader → Option Reader
unfolding mi_sintkorr masked
groups store negative zero r = some r
groups store negative (suc k) r =
    let x = masked negative (mi_sintkorr 4 r.from) in
    let rest = groups store negative k (record { from = drop 4 r.from; out = store x r.out }) in
    if ltb (dig_base - 1) x then none else rest

unfoldable pub tail_group : Bool → ℕ → Reader → Option Reader
unfolding mi_sintkorr masked
tail_group negative frac0x r =
    let n = dig2bytes frac0x in
    let x = masked negative (mi_sintkorr n r.from) * 10 ^ (9 - frac0x) % 2 ^ 32 in
    if frac0x == 0
    then some r
    else if ltb (dig_base - 1) x
    then none
    else some (record { from = drop n r.from; out = push x r.out })

abbrev pub and_then : Option Reader → (Reader → Option Reader) → Option Reader
and_then none f = none
and_then (some r) f = f r

abbrev pub flip_first : Bytes → Bytes
flip_first [] = []
flip_first (b ∷ p) = ((b + 128) % 256) ∷ p

abbrev pub is_negative : Bytes → Bool
is_negative [] = false
is_negative (b ∷ p) = ltb b 128

-- `bin2dec` into a buffer that holds all groups, `intg1 + frac1 <= to->len`, as its only caller's
-- does; what it returns is not read. The bytes are those that `memcpy` takes.
unfoldable pub bin2dec : DecimalT → Bytes → ℕ → ℕ → Outcome DecimalT
unfolding decimal_bin_size head_group groups tail_group
bin2dec make_zero from precision scale =
    let size = decimal_bin_size precision scale in
    let intg = precision - scale in
    let negative = is_negative from in
    let start : DecimalT = record { buf = []; intg = intg; frac = scale; sign = negative } in
    let copy : Reader = record { from = flip_first (take size from); out = start } in
    let read =
      and_then
        (and_then
          (and_then (head_group negative (intg % 9) copy)
            (groups (push_intg 9) negative (intg / 9)))
          (groups push negative (scale / 9)))
        (tail_group negative (scale % 9)) in
    if length from == 0
    then fault
    else if ltb 128 size
    then ok make_zero
    else if ltb (length from) size
    then fault
    else ok (elim read [
      | none ↦ make_zero
      | some r ↦ if r.out.intg == 0 && r.out.frac == 0 then make_zero else r.out
    ])

-- Doubles as their bit patterns.
pub record Doubles : Type 0 where
  pub of_nat : ℕ → ℕ
  pub add : ℕ → ℕ → ℕ
  pub mul : ℕ → ℕ → ℕ
  pub div : ℕ → ℕ → ℕ
  pub negate : ℕ → ℕ

-- `for (i = n; i > 0; i -= 9) result = result * DIG_BASE + *buf++`, over the groups left.
abbrev accumulate : Doubles → ℕ → List ℕ → ℕ → Outcome (ℕ × List ℕ)
accumulate d zero buf result = ok (result, buf)
accumulate d (suc k) [] result = fault
accumulate d (suc k) (x ∷ buf) result =
    accumulate d k buf (d.add (d.mul result (d.of_nat dig_base)) (d.of_nat x))

unfoldable pub dec2dbl : Doubles → DecimalT → Outcome ℕ
dec2dbl d t = do
  (whole, rest) ← accumulate d ((t.intg + 8) / 9) t.buf (d.of_nat 0)
  (all, _) ← accumulate d ((t.frac + 8) / 9) rest whole
  let exp = (t.frac + 8) / 9 * 9
  let scaled = d.div all (d.mul (d.of_nat (10 ^ (exp / 10 * 10))) (d.of_nat (10 ^ (exp % 10))))
  if ltb 99 exp then fault else ok (if t.sign then d.negate scaled else scaled)
