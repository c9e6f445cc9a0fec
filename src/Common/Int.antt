-- ===== src/Common/Int.antt =====
-- Signed integers over the native numbers, under the library's names.
-- Orders and sums go through the two parts of an integer, which `omega` reads.
use Prim.Native.Nat.{ℕ, suc, ◌+◌, ◌-◌, ◌^◌, ◌%◌, ◌≤◌, ◌<◌}
use mathlib.Core.Path.{◌≡◌}
use mathlib.Core.Logic.{◌⊎◌, inl, inr}
use mathlib.Core.Bool.{Bool, true, false}
use native.Mathlib.Omega.{arith}
use libslave.Common.Tests.{ltb, leb, ◌==◌, if◌then◌else◌, Bool-cases}

-- `negsuc n` is -(n + 1).
pub data ℤ : Type 0 where
  pos : ℕ → ℤ
  negsuc : ℕ → ℤ

abbrev pub pos_part : ℤ → ℕ
pos_part (pos n) = n
pos_part (negsuc n) = 0

abbrev pub neg_part : ℤ → ℕ
neg_part (pos n) = 0
neg_part (negsuc n) = suc n

abbrev pub sub_ℕ : ℕ → ℕ → ℤ
sub_ℕ a b = if leb b a then pos (a - b) else negsuc (b - a - 1)

abbrev pub neg : ℤ → ℤ
neg a = sub_ℕ (neg_part a) (pos_part a)

-- `x + 1` and `x - 1`.
unfoldable pub inc : ℤ → ℤ
inc a = sub_ℕ (pos_part a + 1) (neg_part a)

unfoldable pub dec : ℤ → ℤ
dec a = sub_ℕ (pos_part a) (neg_part a + 1)

infix 50 ◌≤ℤ◌ ◌<ℤ◌
abbrev pub ◌≤ℤ◌ : ℤ → ℤ → Type 0
a ≤ℤ b = pos_part a + neg_part b ≤ pos_part b + neg_part a

abbrev pub ◌<ℤ◌ : ℤ → ℤ → Type 0
a <ℤ b = pos_part a + neg_part b < pos_part b + neg_part a

unfoldable pub ltb_ℤ : ℤ → ℤ → Bool
ltb_ℤ a b = ltb (pos_part a + neg_part b) (pos_part b + neg_part a)

unfoldable pub leb_ℤ : ℤ → ℤ → Bool
leb_ℤ a b = leb (pos_part a + neg_part b) (pos_part b + neg_part a)

unfoldable pub eqb_ℤ : ℤ → ℤ → Bool
eqb_ℤ a b = (pos_part a + neg_part b) == (pos_part b + neg_part a)

-- To split on a test with what it says.
pub ltb_ℤ-cases : (a b : ℤ) → ((ltb_ℤ a b ≡ true) × (a <ℤ b)) ⊎ ((ltb_ℤ a b ≡ false) × (b ≤ℤ a))
unfolding ltb_ℤ
ltb_ℤ-cases a b = elim (Bool-cases (ltb_ℤ a b)) [
  | inl e ↦ inl (e, ground arith)
  | inr e ↦ inr (e, ground arith)
]

pub leb_ℤ-cases : (a b : ℤ) → ((leb_ℤ a b ≡ true) × (a ≤ℤ b)) ⊎ ((leb_ℤ a b ≡ false) × (b <ℤ a))
unfolding leb_ℤ
leb_ℤ-cases a b = elim (Bool-cases (leb_ℤ a b)) [
  | inl e ↦ inl (e, ground arith)
  | inr e ↦ inr (e, ground arith)
]

pub eqb_ℤ-cases :
    (a b : ℤ)
    → ((eqb_ℤ a b ≡ true) × (a ≤ℤ b) × (b ≤ℤ a)) ⊎ ((eqb_ℤ a b ≡ false) × ((a <ℤ b) ⊎ (b <ℤ a)))
unfolding eqb_ℤ
eqb_ℤ-cases a b = elim (Bool-cases (eqb_ℤ a b)) [
  | inl e ↦ inl (e, ground arith, ground arith)
  | inr e ↦ inr (e, ground arith)
]

pub inc_parts : (a : ℤ) → pos_part (inc a) + neg_part a ≡ neg_part (inc a) + pos_part a + 1
unfolding inc
inc_parts a = ground arith

pub dec_parts : (a : ℤ) → pos_part (dec a) + neg_part a + 1 ≡ neg_part (dec a) + pos_part a
unfolding dec
dec_parts a = ground arith

pub eq_of_parts : (a b : ℤ) → pos_part a + neg_part b ≡ pos_part b + neg_part a → a ≡ b
eq_of_parts a b h = ground arith

-- The number that a pattern of w bits stands for in two's complement.
abbrev pub signed : ℕ → ℕ → ℤ
signed w n = if ltb n (2 ^ (w - 1)) then pos n else negsuc (2 ^ w - n - 1)

-- A number as an `unsigned int` or a `uint32_t`.
abbrev pub wrap32 : ℤ → ℕ
wrap32 (pos n) = n % 2 ^ 32
wrap32 (negsuc n) = 2 ^ 32 - 1 - n % 2 ^ 32

-- A number as an `int64_t`'s pattern of 64 bits.
abbrev pub wrap64 : ℤ → ℕ
wrap64 (pos n) = n % 2 ^ 64
wrap64 (negsuc n) = 2 ^ 64 - 1 - n % 2 ^ 64
