-- ===== src/Rows/Marks.antt =====
-- The bits of the column filter that table.h's `set_column_filter` sets.
use libslave.Common.{
  ℕ, zero, suc, ◌+◌, ◌/◌, ◌%◌, ◌^◌, ◌<◌, ◌≡◌, refl, ap, sym, ◌∙◌, arith, Bool, false, ◌||◌, ◌==◌,
  ==_iff, Bytes, IsByte, All, [], ◌∷◌, Option, some, none, get_elem?, set, replicate, ok, or_fault,
  ◌>>=◌, Bool-cases, Option-cases, inl, inr,
}
use libslave.Table.Defs.{has_bit, or_bit, mark}
use libslave.Table.Bits.{
  has_bit-or_bit, has_bit-zero, or_bit-IsByte, get_elem?-set, get_elem?-replicate, All-set,
}
use libslave.Rows.Defs.{bit_at}

-- A bit that can be read stands in a byte that is there.
bit_at-ok :
    (b : Bytes) (i : ℕ) (x : Bool)
    → bit_at b i ≡ ok x
    → (v : ℕ) × (get_elem? b (i / 8) ≡ some v) × (has_bit v (2 ^ (i % 8)) ≡ x)
unfolding bit_at
bit_at-ok b i x h = go (get_elem? b (i / 8)) h
  where
    go :
        (o : Option ℕ)
        → (or_fault o >>= (λ v. ok (has_bit v (2 ^ (i % 8))))) ≡ ok x
        → (v : ℕ) × (o ≡ some v) × (has_bit v (2 ^ (i % 8)) ≡ x)
    go none e = cc
    go (some v) e = (v, refl, cc)

bit_at-byte :
    (b : Bytes) (i v : ℕ) → get_elem? b (i / 8) ≡ some v → bit_at b i ≡ ok (has_bit v (2 ^ (i % 8)))
unfolding bit_at
bit_at-byte b i v e = rw e

get-IsByte : (b : Bytes) (q v : ℕ) → All IsByte b → get_elem? b q ≡ some v → v < 256
get-IsByte [] q v h e = cc
get-IsByte (x ∷ b) zero v h e = ground arith
get-IsByte (x ∷ b) (suc q) v h e = get-IsByte b q v h.1 e

mark-byte :
    (b : Bytes) (j v : ℕ)
    → get_elem? b (j / 8) ≡ some v
    → mark j b ≡ set b (j / 8) (or_bit v (2 ^ (j % 8)))
unfolding mark
mark-byte b j v e = rw (e, mark)

mark-none : (b : Bytes) (j : ℕ) → get_elem? b (j / 8) ≡ none → mark j b ≡ b
unfolding mark
mark-none b j e = rw (e, mark)

same_byte : (j i : ℕ) → j / 8 ≡ i / 8 → (j % 8 == i % 8) ≡ (j == i)
same_byte j i h = ground arith

other_byte : (j i : ℕ) → (j / 8 == i / 8) ≡ false → (j == i) ≡ false
other_byte j i h = ground arith

-- `mark` sets the bit of its column, and no other, where that column has a byte.
pub bit_at-mark :
    (b : Bytes) (j i : ℕ) (x y : Bool)
    → All IsByte b
    → bit_at b j ≡ ok y
    → bit_at b i ≡ ok x
    → bit_at (mark j b) i ≡ ok (j == i || x)
bit_at-mark b j i x y bytes there e =
    let (v, at_j, _) = bit_at-ok b j y there in
    let (u, at_i, bit) = bit_at-ok b i x e in
    let written = get_elem?-set b (j / 8) (i / 8) (or_bit v (2 ^ (j % 8))) at_j in
    rw (mark-byte b j v at_j) (elim (Bool-cases (j / 8 == i / 8)) [
      | inl near ↦
          let place : j / 8 ≡ i / 8 = (==_iff (j / 8) (i / 8)).0 near in
          let equal : v ≡ u = cc (at_j, at_i, ap (get_elem? b) place) in
          bit_at-byte _ i (or_bit v (2 ^ (j % 8))) (rw near at written)
          ∙ ap ok (
              has_bit-or_bit v (j % 8) (i % 8) (get-IsByte b (j / 8) v bytes at_j) (omega arith)
                (omega arith)
              ∙ ap (λ w. (j % 8 == i % 8) || has_bit w (2 ^ (i % 8))) equal
              ∙ ap (λ z. (j % 8 == i % 8) || z) bit
              ∙ ap (λ z. z || x) (same_byte j i place))
      | inr far ↦
          bit_at-byte _ i u ((rw far at written) ∙ at_i)
          ∙ ap ok (bit ∙ ap (λ z. z || x) (sym (other_byte j i far)))
    ])

pub mark-IsByte : (b : Bytes) (j : ℕ) → All IsByte b → All IsByte (mark j b)
mark-IsByte b j h = elim (Option-cases (get_elem? b (j / 8))) [
  | inl e ↦ rw (mark-none b j e) h
  | inr (v, e) ↦ rw (mark-byte b j v e) (
      All-set IsByte b (j / 8) (or_bit v (2 ^ (j % 8))) h
        (or_bit-IsByte v (j % 8) (get-IsByte b (j / 8) v h e) (omega arith)))
]

-- The bit map that the loop begins with has no bit set, and a bit for each column.
pub bit_at-clear : (n j : ℕ) → j < n → bit_at (replicate ((n + 7) / 8) 0) j ≡ ok false
bit_at-clear n j h =
    bit_at-byte (replicate ((n + 7) / 8) 0) j 0
      (get_elem?-replicate ((n + 7) / 8) (j / 8) 0 (omega arith))
    ∙ ap ok (has_bit-zero (j % 8) (omega arith))

pub zeros-IsByte : (n : ℕ) → All IsByte (replicate n 0)
zeros-IsByte zero = tt
zeros-IsByte (suc n) = (omega arith, zeros-IsByte n)
