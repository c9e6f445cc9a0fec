-- ===== src/Wire/Laws.antt =====
-- Laws of the byte order, and a wire that has them.
use libslave.Common.{
  ℕ, zero, suc, ◌*◌, ◌/◌, ◌^◌, ◌<◌, ◌≡◌, refl, arith, [], ◌∷◌, ◌++◌, Bytes, IsByte, All, Option,
  some, none, length, drop, ltb, if◌then◌else◌, ◌==◌, ◌&&◌, ap,
}
use libslave.Common.Int.{signed}
use libslave.Wire.{Wire, IsLittleEndian, le, le_bytes}
use native.Mathlib.Nat.{pow-suc}

pub length-le_bytes : (n v : ℕ) → length (le_bytes n v) ≡ n
unfolding le_bytes
length-le_bytes zero v = refl
length-le_bytes (suc n) v = omega (arith, length-le_bytes n (v / 256))

pub le-le_bytes : (n v : ℕ) (rest : Bytes) → v < 256 ^ n → le n (le_bytes n v ++ rest) ≡ v
unfolding le le_bytes
le-le_bytes zero v rest h = omega arith
le-le_bytes (suc n) v rest h =
    omega (arith, le-le_bytes n (v / 256) rest (omega (arith, pow-suc 256 n)))

pub le-lt : (n : ℕ) (p : Bytes) → All IsByte p → le n p < 256 ^ n
unfolding le
le-lt zero p h = omega arith
le-lt (suc n) [] h = omega (arith, le-lt n [] tt, pow-suc 256 n)
le-lt (suc n) (b ∷ p) h = omega (arith, le-lt n p h.1, pow-suc 256 n)

-- The same bytes read as a pattern of a signed integer.
pub signed-le_bytes :
    (n v : ℕ) (rest : Bytes)
    → v < 256 ^ n
    → signed (8 * n) (le n (le_bytes n v ++ rest)) ≡ signed (8 * n) v
signed-le_bytes n v rest h = ap (signed (8 * n)) (le-le_bytes n v rest h)

abbrev packed : Bytes → Option (ℕ × Bytes)
packed [] = none
packed (b ∷ p) =
    if ltb b 251
    then some (b, p)
    else if b == 252 && ltb 1 (length p)
    then some (le 2 p, drop 2 p)
    else none

-- A wire with the documented byte order, to run the model on.
unfoldable pub plain : Wire
unfolding le le_bytes
plain = record {
  uint2korr = le 2;
  uint3korr = le 3;
  uint4korr = le 4;
  uint6korr = le 6;
  uint8korr = le 8;
  sint2korr = λ p. signed 16 (le 2 p);
  sint3korr = λ p. signed 24 (le 3 p);
  sint8korr = λ p. signed 64 (le 8 p);
  int2store = le_bytes 2;
  int4store = le_bytes 4;
  int8store = le_bytes 8;
  net_field_length = packed;
}

pub plain-IsLittleEndian : IsLittleEndian plain
unfolding plain
plain-IsLittleEndian = record {
  uint2korr_le = λ p h. refl;
  uint3korr_le = λ p h. refl;
  uint4korr_le = λ p h. refl;
  uint6korr_le = λ p h. refl;
  uint8korr_le = λ p h. refl;
  sint2korr_le = λ p h. refl;
  sint3korr_le = λ p h. refl;
  sint8korr_le = λ p h. refl;
  int2store_le = λ v. refl;
  int4store_le = λ v. refl;
  int8store_le = λ v. refl;
  net_field_length_one = λ b p h. ground arith;
  net_field_length_two = λ a b p. ground arith;
}
