-- ===== src/Wire.antt =====
-- What the code takes from the MySQL client headers (my_global.h, mysql.h), as an interface: reads
-- and stores of little-endian integers, and the packed length of the client protocol.
pub mod Laws
use libslave.Common.{
  ℕ, zero, suc, ◌+◌, ◌*◌, ◌/◌, ◌%◌, ◌^◌, ◌≤◌, ◌<◌, ◌≡◌, List, [], ◌∷◌, ◌++◌, Bytes, Option, some,
  none, length,
}
use libslave.Common.Int.{ℤ, signed}

-- The number that the first n bytes hold, the lowest byte first.
unfoldable pub le : ℕ → Bytes → ℕ
le zero p = 0
le (suc n) [] = 0
le (suc n) (b ∷ p) = b + 256 * le n p

-- The n bytes of a number, the lowest first.
unfoldable pub le_bytes : ℕ → ℕ → Bytes
le_bytes zero v = []
le_bytes (suc n) v = (v % 256) ∷ le_bytes n (v / 256)

pub record Wire : Type 0 where
  pub uint2korr : Bytes → ℕ
  pub uint3korr : Bytes → ℕ
  pub uint4korr : Bytes → ℕ
  pub uint6korr : Bytes → ℕ
  pub uint8korr : Bytes → ℕ
  pub sint2korr : Bytes → ℤ
  pub sint3korr : Bytes → ℤ
  pub sint8korr : Bytes → ℤ
  pub int2store : ℕ → Bytes
  pub int4store : ℕ → Bytes
  pub int8store : ℕ → Bytes
  -- `none` where the call reads past the end of what is there.
  pub net_field_length : Bytes → Option (ℕ × Bytes)

-- What the MySQL documentation says of them.
pub record IsLittleEndian (w : Wire) : Type 0 where
  pub uint2korr_le : (p : Bytes) → 2 ≤ length p → w.uint2korr p ≡ le 2 p
  pub uint3korr_le : (p : Bytes) → 3 ≤ length p → w.uint3korr p ≡ le 3 p
  pub uint4korr_le : (p : Bytes) → 4 ≤ length p → w.uint4korr p ≡ le 4 p
  pub uint6korr_le : (p : Bytes) → 6 ≤ length p → w.uint6korr p ≡ le 6 p
  pub uint8korr_le : (p : Bytes) → 8 ≤ length p → w.uint8korr p ≡ le 8 p
  pub sint2korr_le : (p : Bytes) → 2 ≤ length p → w.sint2korr p ≡ signed 16 (le 2 p)
  pub sint3korr_le : (p : Bytes) → 3 ≤ length p → w.sint3korr p ≡ signed 24 (le 3 p)
  pub sint8korr_le : (p : Bytes) → 8 ≤ length p → w.sint8korr p ≡ signed 64 (le 8 p)
  pub int2store_le : (v : ℕ) → w.int2store v ≡ le_bytes 2 v
  pub int4store_le : (v : ℕ) → w.int4store v ≡ le_bytes 4 v
  pub int8store_le : (v : ℕ) → w.int8store v ≡ le_bytes 8 v
  pub net_field_length_one :
      (b : ℕ) (p : Bytes) → b < 251 → w.net_field_length (b ∷ p) ≡ some (b, p)
  pub net_field_length_two :
      (a b : ℕ) (p : Bytes) → w.net_field_length (252 ∷ a ∷ b ∷ p) ≡ some (a + 256 * b, p)
