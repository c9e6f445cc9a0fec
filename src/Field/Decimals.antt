-- ===== src/Field/Decimals.antt =====
-- Packed decimals, as dec_util.cpp's `bin2dec` reads them.
use libslave.Common.{
  ℕ, zero, suc, ◌+◌, ◌-◌, ◌*◌, ◌%◌, ◌^◌, ◌<◌, ◌≡◌, refl, arith, Bool, false, Bytes, List, [], ◌∷◌,
  ◌++◌, All, length, drop, drop-append, leb, ltb-false, ◌==◌, Bool-cases, inl, inr, if◌then◌else◌,
  some,
}
use mathlib.Core.List.{append_assoc, append-nil}
use native.Mathlib.Nat.{pow-suc}
use libslave.Field.Create.{dig2bytes}
use libslave.Field.Decimal.{DecimalT, dig_base, head_group, groups, tail_group, push, push_intg}
use libslave.Field.Groups.{
  group_bytes, masked-group_bytes, length-group_bytes, digits_fit, scaled_digits,
}

-- Groups of digits, each with the number of its bytes.
abbrev pub bytes_of : Bool → List (ℕ × ℕ) → Bytes
bytes_of negative [] = []
bytes_of negative ((n, x) ∷ s) = group_bytes negative n x ++ bytes_of negative s

-- A group of less than nine digits, where there is one.
abbrev pub incomplete : ℕ → ℕ → List (ℕ × ℕ)
incomplete zero x = []
incomplete (suc k) x = (dig2bytes (suc k), x) ∷ []

abbrev pub complete : List ℕ → List (ℕ × ℕ)
complete [] = []
complete (x ∷ xs) = (4, x) ∷ complete xs

abbrev pub stored : (ℕ → DecimalT → DecimalT) → List ℕ → DecimalT → DecimalT
stored store [] t = t
stored store (x ∷ xs) t = stored store xs (store x t)

abbrev pub IsGroup : ℕ → Type 0
IsGroup x = x < dig_base

drop-group_bytes :
    (negative : Bool) (n x : ℕ) (rest : Bytes) → drop n (group_bytes negative n x ++ rest) ≡ rest
drop-group_bytes negative n x rest =
    rw (length-group_bytes negative n x) at (drop-append (group_bytes negative n x) rest)

pub groups-bytes_of :
    (store : ℕ → DecimalT → DecimalT) (negative : Bool) (xs : List ℕ) (t : DecimalT) (rest : Bytes)
    → All IsGroup xs
    → groups store negative
        (length xs)
        (record { from = bytes_of negative (complete xs) ++ rest; out = t })
      ≡ some (record { from = rest; out = stored store xs t })
unfolding groups
groups-bytes_of store negative [] t rest h = refl
groups-bytes_of store negative (x ∷ xs) t rest (b, h) =
    let more = bytes_of negative (complete xs) in
    rw
      (
        append_assoc (group_bytes negative 4 x) more rest,
        masked-group_bytes negative 4 x (more ++ rest) (omega arith, omega arith, omega arith),
        drop-group_bytes negative 4 x (more ++ rest),
        ltb-false (dig_base - 1) x (omega arith),
      )
      (groups-bytes_of store negative xs (store x t) rest h)

below_limit : (k h : ℕ) → h < 10 ^ k → leb (10 ^ (k + 1)) h ≡ false
below_limit k h b =
    let next : k + 1 ≡ suc k = omega arith in
    let more : 10 ^ (k + 1) ≡ 10 ^ k * 10 = rw next (pow-suc 10 k) in ground arith

nonzero : (k : ℕ) → (suc k == 0) ≡ false
nonzero k = ground arith

pub head_group-bytes_of :
    (negative : Bool) (k h : ℕ) (t : DecimalT) (rest : Bytes)
    → k < 9
    → h < 10 ^ k
    → head_group negative k (record { from = bytes_of negative (incomplete k h) ++ rest; out = t })
      ≡ some (record { from = rest; out = if k == 0 then t else push_intg k h t })
unfolding head_group
head_group-bytes_of negative zero h t rest low b = refl
head_group-bytes_of negative (suc k) h t rest low b =
    let n = dig2bytes (suc k) in
    rw (
      nonzero k,
      append_assoc (group_bytes negative n h) [] rest,
      masked-group_bytes negative n h rest (digits_fit (suc k) (omega arith) h (omega arith) b),
      drop-group_bytes negative n h rest,
      below_limit (suc k) h b,
    )

-- The words of a buffer: those of the groups behind the point, the last one scaled to nine digits.
abbrev pub scaled : ℕ → ℕ → List ℕ
scaled zero x = []
scaled (suc j) x = x * 10 ^ (9 - suc j) ∷ []

word : (x : ℕ) → x < 1000000000 → x % 2 ^ 32 ≡ x
word x h = omega arith

pub tail_group-bytes_of :
    (negative : Bool) (j x : ℕ) (t : DecimalT) (rest : Bytes)
    → j < 9
    → x < 10 ^ j
    → tail_group negative j (record { from = bytes_of negative (incomplete j x) ++ rest; out = t })
      ≡ some (record { from = rest; out = stored push (scaled j x) t })
unfolding tail_group
tail_group-bytes_of negative zero x t rest low b = refl
tail_group-bytes_of negative (suc j) x t rest low b =
    let n = dig2bytes (suc j) in
    let scale = scaled_digits (suc j) low x b in
    rw (
      nonzero j,
      append_assoc (group_bytes negative n x) [] rest,
      masked-group_bytes negative n x rest (digits_fit (suc j) (omega arith) x (omega arith) b),
      drop-group_bytes negative n x rest,
      word (x * 10 ^ (9 - suc j)) scale,
      ltb-false (dig_base - 1) (x * 10 ^ (9 - suc j)) (omega arith),
    )

pub stored-push : (xs : List ℕ) (t : DecimalT) → stored push xs t ≡ record t { buf = t.buf ++ xs }
stored-push [] t = rw (append-nil t.buf)
stored-push (x ∷ xs) t = rw (stored-push xs (push x t), append_assoc t.buf (x ∷ []) xs)

-- The zeros in front of the first group that is not zero.
abbrev pub skip_zeros : List ℕ → List ℕ
skip_zeros [] = []
skip_zeros (x ∷ xs) = if x == 0 then skip_zeros xs else (x ∷ xs)

module _ (frac : ℕ) (sign : Bool) where
  pub stored-push_intg :
      (xs ys : List ℕ) (y intg : ℕ)
      → stored (push_intg 9) xs (record { buf = y ∷ ys; intg = intg; frac = frac; sign = sign })
        ≡ record { buf = y ∷ (ys ++ xs); intg = intg; frac = frac; sign = sign }
  stored-push_intg [] ys y intg = rw (append-nil ys)
  stored-push_intg (x ∷ xs) ys y intg =
      rw (stored-push_intg xs (ys ++ (x ∷ [])) y intg, append_assoc ys (x ∷ []) xs)

  pub stored-skip_zeros :
      (xs : List ℕ) (intg : ℕ)
      → intg ≡ 9 * length xs
      → stored (push_intg 9) xs (record { buf = []; intg = intg; frac = frac; sign = sign })
        ≡ record {
          buf = skip_zeros xs;
          intg = 9 * length (skip_zeros xs);
          frac = frac;
          sign = sign;
        }
  stored-skip_zeros [] intg e = rw e
  stored-skip_zeros (x ∷ xs) intg e = elim (Bool-cases (x == 0)) [
    | inl z ↦ rw z (stored-skip_zeros xs (intg - 9) (omega arith))
    | inr z ↦ rw (z, stored-push_intg xs [] x intg, e)
  ]
