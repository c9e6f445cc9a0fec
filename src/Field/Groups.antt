-- ===== src/Field/Groups.antt =====
-- One group of digits of a packed decimal, as dec_util.cpp's `bin2dec` reads it.
use libslave.Common.{
  ℕ, zero, suc, ◌+◌, ◌-◌, ◌*◌, ◌^◌, ◌≤◌, ◌<◌, ◌≡◌, refl, arith, Bool, true, false, not, Bytes, [],
  ◌∷◌, ◌++◌, length, ltb, ◌==◌, Bool-cases, inl, inr, if◌then◌else◌,
}
use libslave.Field.Create.{dig2bytes}
use libslave.Field.Decimal.{mi_sintkorr, masked}
use libslave.Field.Images.{be_bytes, length-be_bytes, be_from-be_bytes}

-- The n bytes of a group: those of a negative decimal are inverted.
unfoldable pub group_bytes : Bool → ℕ → ℕ → Bytes
group_bytes negative n x = be_bytes n (if negative then 256 ^ n - 1 - x else x)

-- The numbers of bytes that groups have, and the numbers that fit without the highest bit.
abbrev pub Fits : ℕ → ℕ → Type 0
Fits n x = (1 ≤ n) × (n ≤ 4) × (x < 2 ^ (8 * n - 1))

abbrev AllBelow : (ℕ → Type 0) → ℕ → Type 0
AllBelow P zero = Unit {0}
AllBelow P (suc n) = P n × AllBelow P n

below : (P : ℕ → Type 0) (n k : ℕ) → k < n → AllBelow P n → P k
below P zero k h all = absurd (omega arith)
below P (suc n) k h (p, all) = elim (Bool-cases (k == n)) [
  | inl e ↦ let same : k ≡ n = ground arith in rw same p
  | inr e ↦ below P n k (ground arith) all
]

abbrev Unmasks : Bool → ℕ → Type 0
Unmasks negative n =
    (x v : ℕ)
    → Fits n x
    → v ≡ (if negative then 256 ^ n - 1 - x else x)
    → (masked negative (if ltb v (2 ^ (8 * n - 1)) then v else v + 2 ^ 32 - 2 ^ (8 * n)) ≡ x)
      × (v < 256 ^ n)

masked-number : (negative : Bool) (n : ℕ) → n < 5 → Unmasks negative n
unfolding masked
masked-number true n h = below (Unmasks true) 5 n h (
  λ x v (_, _, b) e. (ground arith, ground arith),
  (
    λ x v (_, _, b) e. (ground arith, ground arith),
    (
      λ x v (_, _, b) e. (ground arith, ground arith),
      (
        λ x v (_, _, b) e. (ground arith, ground arith),
        (λ x v (z, _, _) e. absurd (omega arith), tt),
      ),
    ),
  ),
)
masked-number false n h = below (Unmasks false) 5 n h (
  λ x v (_, _, b) e. (ground arith, ground arith),
  (
    λ x v (_, _, b) e. (ground arith, ground arith),
    (
      λ x v (_, _, b) e. (ground arith, ground arith),
      (
        λ x v (_, _, b) e. (ground arith, ground arith),
        (λ x v (z, _, _) e. absurd (omega arith), tt),
      ),
    ),
  ),
)

-- A group is read back from its bytes.
pub masked-group_bytes :
    (negative : Bool) (n x : ℕ) (rest : Bytes)
    → Fits n x
    → masked negative (mi_sintkorr n (group_bytes negative n x ++ rest)) ≡ x
unfolding mi_sintkorr group_bytes
masked-group_bytes negative n x rest (low, high, fits) =
    let v = if negative then 256 ^ n - 1 - x else x in
    let (value, bound) = masked-number negative n (omega arith) x v (low, high, fits) refl in
    rw (be_from-be_bytes n v rest bound) value

-- The first byte has its highest bit set just in a negative decimal.
abbrev pub Leads : Bool → Bytes → Type 0
Leads negative [] = ⊥
Leads negative (b ∷ p) = (b < 256) × (ltb b 128 ≡ not negative)

abbrev Heads : Bool → ℕ → Type 0
Heads negative n =
    (x : ℕ)
    → Fits n x
    → (rest : Bytes) → Leads negative (be_bytes n (if negative then 256 ^ n - 1 - x else x) ++ rest)

pub group_bytes-Leads :
    (negative : Bool) (n x : ℕ) (rest : Bytes)
    → Fits n x
    → Leads negative (group_bytes negative n x ++ rest)
unfolding group_bytes be_bytes
group_bytes-Leads true n x rest f =
    below (Heads true) 5 n (omega arith)
      (
        λ x (_, _, b) rest. (ground arith, ground arith),
        (
          λ x (_, _, b) rest. (ground arith, ground arith),
          (
            λ x (_, _, b) rest. (ground arith, ground arith),
            (
              λ x (_, _, b) rest. (ground arith, ground arith),
              (λ x (z, _, _) rest. absurd (omega arith), tt),
            ),
          ),
        ),
      )
      x f rest
group_bytes-Leads false n x rest f =
    below (Heads false) 5 n (omega arith)
      (
        λ x (_, _, b) rest. (ground arith, ground arith),
        (
          λ x (_, _, b) rest. (ground arith, ground arith),
          (
            λ x (_, _, b) rest. (ground arith, ground arith),
            (
              λ x (_, _, b) rest. (ground arith, ground arith),
              (λ x (z, _, _) rest. absurd (omega arith), tt),
            ),
          ),
        ),
      )
      x f rest

-- A group of up to nine digits fits its bytes.
pub digits_fit : (k : ℕ) → k < 10 → (x : ℕ) → 0 < k → x < 10 ^ k → Fits (dig2bytes k) x
digits_fit k h =
    below (λ k. (x : ℕ) → 0 < k → x < 10 ^ k → Fits (dig2bytes k) x) 10 k h
      (
        λ x z b. (omega arith, omega arith, omega arith),
        (
          λ x z b. (omega arith, omega arith, omega arith),
          (
            λ x z b. (omega arith, omega arith, omega arith),
            (
              λ x z b. (omega arith, omega arith, omega arith),
              (
                λ x z b. (omega arith, omega arith, omega arith),
                (
                  λ x z b. (omega arith, omega arith, omega arith),
                  (
                    λ x z b. (omega arith, omega arith, omega arith),
                    (
                      λ x z b. (omega arith, omega arith, omega arith),
                      (
                        λ x z b. (omega arith, omega arith, omega arith),
                        (λ x z b. absurd (omega arith), tt),
                      ),
                    ),
                  ),
                ),
              ),
            ),
          ),
        ),
      )

-- Digits behind the point are scaled up to nine.
pub scaled_digits : (k : ℕ) → k < 9 → (x : ℕ) → x < 10 ^ k → x * 10 ^ (9 - k) < 1000000000
scaled_digits k h =
    below (λ k. (x : ℕ) → x < 10 ^ k → x * 10 ^ (9 - k) < 1000000000) 9 k h
      (
        λ x b. omega arith,
        (
          λ x b. omega arith,
          (
            λ x b. omega arith,
            (
              λ x b. omega arith,
              (
                λ x b. omega arith,
                (
                  λ x b. omega arith,
                  (λ x b. omega arith, (λ x b. omega arith, (λ x b. omega arith, tt))),
                ),
              ),
            ),
          ),
        ),
      )

pub length-group_bytes : (negative : Bool) (n x : ℕ) → length (group_bytes negative n x) ≡ n
unfolding group_bytes
length-group_bytes negative n x = length-be_bytes n _
