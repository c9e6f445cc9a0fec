-- ===== src/Rows/Bits.antt =====
-- The bit maps of a row event: counting the columns, and walking the null bits byte by byte.
use libslave.Common.{
  ℕ, zero, suc, ◌+◌, ◌*◌, ◌/◌, ◌%◌, ◌^◌, ◌≤◌, ◌<◌, ◌≡◌, ap, ◌∙◌, refl, arith, Bool, true, false,
  Bytes, List, [], ◌∷◌, ok, ◌>>=◌, or_fault, ◌==◌, some, none, get_elem?, drop, length,
  Option-cases, inl, inr, drop-get_elem?,
}
use native.Mathlib.Decide.{dec_lt}
use native.Mathlib.Nat.{pow-suc}
use libslave.Wire.{le}
use libslave.Table.Defs.{has_bit}
use libslave.Rows.Defs.{bit_at, set_bits_from, n_set_bits, in_columns, Scanner, next_null}

-- From bit i on the map holds these bits.
abbrev pub HasBits : Bytes → ℕ → List Bool → Type 0
HasBits bitmap i [] = Unit {0}
HasBits bitmap i (b ∷ bs) = (bit_at bitmap i ≡ ok b) × HasBits bitmap (suc i) bs

abbrev pub trues : List Bool → ℕ
trues [] = 0
trues (true ∷ bs) = suc (trues bs)
trues (false ∷ bs) = trues bs

set_bits_from-trues :
    (bitmap : Bytes) (i ret : ℕ) (bs : List Bool)
    → HasBits bitmap i bs
    → set_bits_from bitmap i (length bs) ret ≡ ok (ret + trues bs)
unfolding set_bits_from
set_bits_from-trues bitmap i ret [] h = ap ok (omega arith)
set_bits_from-trues bitmap i ret (true ∷ bs) (e, h) =
    rw e (set_bits_from-trues bitmap (suc i) (suc ret) bs h ∙ ap ok (omega arith))
set_bits_from-trues bitmap i ret (false ∷ bs) (e, h) =
    rw e (set_bits_from-trues bitmap (suc i) ret bs h)

pub n_set_bits-trues :
    (bitmap : Bytes) (bs : List Bool)
    → HasBits bitmap 0 bs
    → n_set_bits bitmap (length bs) ≡ ok (trues bs)
unfolding n_set_bits
n_set_bits-trues bitmap bs h = set_bits_from-trues bitmap 0 0 bs h ∙ ap ok (omega arith)

pub in_columns-bit_at :
    (cols : Bytes) (i : ℕ) (b : Bool) → bit_at cols i ≡ ok b → in_columns cols i ≡ ok b
unfolding in_columns bit_at
in_columns-bit_at [] i b h = cc
in_columns-bit_at (c ∷ cols) i b h = h

-- What a bit that can be read says of the map.
bit_at-byte :
    (bitmap : Bytes) (q j : ℕ) (b : Bool)
    → j < 8
    → bit_at bitmap (8 * q + j) ≡ ok b
    → (v : ℕ) × (get_elem? bitmap q ≡ some v) × (has_bit v (2 ^ j) ≡ b)
unfolding bit_at
bit_at-byte bitmap q j b h e = elim (Option-cases (get_elem? bitmap q)) [
  | inl lost ↦ absurd (missing lost (rw (row, col) at e))
  | inr (v, found) ↦ (v, found, value v found (rw (row, col) at e))
]
  where
    row : (8 * q + j) / 8 ≡ q
    row = omega arith

    col : (8 * q + j) % 8 ≡ j
    col = omega arith

    missing :
        get_elem? bitmap q ≡ none
        → (or_fault (get_elem? bitmap q) >>= (λ v. ok (has_bit v (2 ^ j)))) ≡ ok b
        → ⊥
    missing lost r = cc (rw lost at r)

    value :
        (v : ℕ)
        → get_elem? bitmap q ≡ some v
        → (or_fault (get_elem? bitmap q) >>= (λ v. ok (has_bit v (2 ^ j)))) ≡ ok b
        → has_bit v (2 ^ j) ≡ b
    value v found r = cc (rw found at r)

-- The loop's three variables after k null bits of the row image: j bits of byte q are read.
abbrev pub At : Bytes → ℕ → ℕ → ℕ → Bytes → Type 0
At image k mask bits ptr =
    (q : ℕ) × (j : ℕ) × (k ≡ 8 * q + j)
    × (j ≤ 8)
    × (mask ≡ 2 ^ j)
    × (get_elem? image q ≡ some bits)
    × (ptr ≡ drop (suc q) image)

mask_in_byte : (j : ℕ) → j < 8 → (2 ^ j % 256 == 0) ≡ false
mask_in_byte zero h = refl
mask_in_byte (suc zero) h = refl
mask_in_byte (suc (suc zero)) h = refl
mask_in_byte (suc (suc (suc zero))) h = refl
mask_in_byte (suc (suc (suc (suc zero)))) h = refl
mask_in_byte (suc (suc (suc (suc (suc zero))))) h = refl
mask_in_byte (suc (suc (suc (suc (suc (suc zero)))))) h = refl
mask_in_byte (suc (suc (suc (suc (suc (suc (suc zero))))))) h = refl
mask_in_byte (suc (suc (suc (suc (suc (suc (suc (suc j)))))))) h = absurd (omega arith)

next_null_reload :
    (s : Scanner) (v : ℕ) (t : Bytes)
    → (s.null_mask % 256 == 0) ≡ true
    → s.null_ptr ≡ v ∷ t
    → next_null s ≡ ok (record s { null_mask = 1; null_bits = v; null_ptr = t })
unfolding next_null le
next_null_reload s v t read front = ground (arith, read, front)

-- The loop's test for the next null byte, and the bit that it looks at then.
pub next_null-At :
    (image : Bytes) (k : ℕ) (s : Scanner) (b : Bool)
    → At image k s.null_mask s.null_bits s.null_ptr
    → bit_at image k ≡ ok b
    → (mask bits : ℕ) × (ptr : Bytes) × (next_null s
        ≡ ok (record s { null_mask = mask; null_bits = bits; null_ptr = ptr }))
      × (has_bit bits mask ≡ b)
      × At image (suc k) (mask * 2) bits ptr
unfolding next_null
next_null-At image k s b (q, j, hk, hj, hm, byte, rest) e = elim (dec_lt j 8) [
  | yes lt ↦ inside lt
  | no ge ↦ refill (omega arith)
]
  where
    Result : Type 0
    Result =
        (mask bits : ℕ) × (ptr : Bytes) × (next_null s
          ≡ ok (record s { null_mask = mask; null_bits = bits; null_ptr = ptr }))
        × (has_bit bits mask ≡ b)
        × At image (suc k) (mask * 2) bits ptr

    inside : j < 8 → Result
    inside lt =
        let (v, found, value) = bit_at-byte image q j b lt (rw hk at e) in
        let same : v ≡ s.null_bits = cc (found, byte) in
        let unread : (s.null_mask % 256 == 0) ≡ false = rw hm (mask_in_byte j lt) in
        (
          s.null_mask,
          s.null_bits,
          s.null_ptr,
          rw unread,
          rw (hm, ← same) value,
          (q, suc j, omega arith, omega arith, omega (arith, hm, pow-suc 2 j), byte, rest),
        )

    refill : j ≡ 8 → Result
    refill full =
        let next : k ≡ 8 * suc q + 0 = omega arith in
        let (v, found, value) = bit_at-byte image (suc q) 0 b (omega arith) (rw next at e) in
        let read : (s.null_mask % 256 == 0) ≡ true = rw (hm, full) in
        let front : s.null_ptr ≡ v ∷ drop (suc (suc q)) image =
          rest ∙ drop-get_elem? image (suc q) found in
        (
          1,
          v,
          drop (suc (suc q)) image,
          next_null_reload s v _ read front,
          value,
          (suc q, 1, omega arith, omega arith, refl, found, refl),
        )
