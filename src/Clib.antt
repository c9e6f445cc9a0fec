-- ===== src/Clib.antt =====
-- What the code uses of the C library on text: `atoi`, `sscanf` with `%d`, `strtoul`, `find`.
use libslave.Common.{
  ℕ, suc, ◌+◌, ◌-◌, ◌*◌, ◌==◌, if◌then◌else◌, Bool, false, ◌&&◌, ◌||◌, [], ◌∷◌, Bytes, Option, none,
  some, leb,
}
use libslave.Common.Int.{ℤ, pos, neg}

abbrev pub is_digit : ℕ → Bool
is_digit c = leb b'0' c && leb c b'9'

-- `isspace` in the C locale.
abbrev pub is_space : ℕ → Bool
is_space c = c == 32 || (leb 9 c && leb c 13)

abbrev pub skip_space : Bytes → Bytes
skip_space [] = []
skip_space (c ∷ s) = let rest = skip_space s in if is_space c then rest else c ∷ s

-- The digits at the front, after those that `acc` holds.
unfoldable pub digits : ℕ → Bytes → ℕ × Bytes
digits acc [] = (acc, [])
digits acc (c ∷ s) =
    let rest = digits (acc * 10 + (c - b'0')) s in if is_digit c then rest else (acc, c ∷ s)

abbrev starts_digit : Bytes → Bool
starts_digit [] = false
starts_digit (c ∷ s) = is_digit c

abbrev unsigned : Bytes → Option (ℕ × Bytes)
unfolding digits
unsigned s = if starts_digit s then some (digits 0 s) else none

abbrev pub sign : Bytes → Option (ℤ × Bytes)
unfolding digits
sign [] = none
sign (c ∷ s) =
    if c == b'-'
    then elim (unsigned s) [ none ↦ none | some (n, r) ↦ some (neg (pos n), r) ]
    else if c == b'+'
    then elim (unsigned s) [ none ↦ none | some (n, r) ↦ some (pos n, r) ]
    else elim (unsigned (c ∷ s)) [ none ↦ none | some (n, r) ↦ some (pos n, r) ]

-- `%d`: white space, a sign, digits; `none` where no digit stands. Values do not overflow.
unfoldable pub scan_int : Bytes → Option (ℤ × Bytes)
unfolding digits
scan_int s = sign (skip_space s)

-- `atoi` and `atoll`: 0 where no number stands.
unfoldable pub atoi : Bytes → ℤ
unfolding scan_int
atoi s = elim (scan_int s) [ none ↦ pos 0 | some (n, r) ↦ n ]

-- A literal of a `sscanf` format.
unfoldable pub after_prefix : Bytes → Bytes → Option Bytes
after_prefix [] s = some s
after_prefix (c ∷ l) [] = none
after_prefix (c ∷ l) (d ∷ s) = let rest = after_prefix l s in if c == d then rest else none

-- `s.find(c)`; `none` is `npos`.
unfoldable pub find : ℕ → Bytes → Option ℕ
find c [] = none
find c (d ∷ s) = if d == c then some 0 else elim (find c s) [ none ↦ none | some i ↦ some (suc i) ]

unfoldable pub count : ℕ → Bytes → ℕ
count c [] = 0
count c (d ∷ s) = let rest = count c s in if d == c then suc rest else rest
