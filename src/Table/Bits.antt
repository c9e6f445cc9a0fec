-- ===== src/Table/Bits.antt =====
-- table.h's bit map of columns: setting a bit of a byte, and a byte of the map.
use libslave.Common.{
  ℕ, zero, suc, ◌+◌, ◌≤◌, ◌^◌, ◌<◌, ◌≡◌, refl, sym, arith, Bool, true, false, ◌&&◌, ◌||◌, ◌==◌,
  if◌then◌else◌, ltb, ltb→lt, IsByte, All, List, [], ◌∷◌, some, get_elem?, set, replicate,
}
use native.Mathlib.Decide.{dec_lt}
use libslave.Table.Defs.{has_bit, or_bit}

and_left : (a b : Bool) → (a && b) ≡ true → a ≡ true
and_left true b h = refl
and_left false b h = cc

and_right : (a b : Bool) → (a && b) ≡ true → b ≡ true
and_right true b h = h
and_right false b h = cc

-- What is tested on a range is so on the range: the numbers from `lo` on, `count` of them.
holds_from : (test : ℕ → Bool) (lo count : ℕ) → Bool
holds_from test lo zero = true
holds_from test lo (suc count) = test lo && holds_from test (suc lo) count

tested :
    (test : ℕ → Bool) (lo count n : ℕ)
    → holds_from test lo count ≡ true
    → lo ≤ n
    → n < lo + count
    → test n ≡ true
unfolding holds_from
tested test lo zero n h low high = absurd (omega arith)
tested test lo (suc count) n h low high = elim (dec_lt lo n) [
  | yes above ↦ tested test (suc lo) count n (and_right _ _ h) (omega arith) (omega arith)
  | no here ↦ let first : lo ≡ n = omega arith in rw (← first) (and_left _ _ h)
]

abbrev same : Bool → Bool → Bool
same true b = b
same false true = false
same false false = true

same_eq : (a b : Bool) → same a b ≡ true → a ≡ b
same_eq true b h = sym h
same_eq false true h = cc
same_eq false false h = refl

abbrev bit_law : ℕ → ℕ → ℕ → Bool
bit_law v k m =
    same (has_bit (or_bit v (2 ^ k)) (2 ^ m)) (k == m || has_bit v (2 ^ m))
    && ltb (or_bit v (2 ^ k)) 256

bit_table : holds_from (λ v. holds_from (λ k. holds_from (λ m. bit_law v k m) 0 8) 0 8) 0 256 ≡ true
unfolding holds_from
bit_table = refl

bit_laws : (v k m : ℕ) → v < 256 → k < 8 → m < 8 → bit_law v k m ≡ true
bit_laws v k m hv hk hm =
    let row = tested _ 0 256 v bit_table (omega arith) (omega arith) in
    let entry = tested _ 0 8 k row (omega arith) (omega arith) in
    tested _ 0 8 m entry (omega arith) (omega arith)

-- `v |= 1 << k` sets bit k, leaves the others, and stays a byte.
pub has_bit-or_bit :
    (v k m : ℕ)
    → v < 256
    → k < 8
    → m < 8
    → has_bit (or_bit v (2 ^ k)) (2 ^ m) ≡ (k == m || has_bit v (2 ^ m))
has_bit-or_bit v k m hv hk hm = same_eq _ _ (and_left _ _ (bit_laws v k m hv hk hm))

zero_table : holds_from (λ m. same (has_bit 0 (2 ^ m)) false) 0 8 ≡ true
unfolding holds_from
zero_table = refl

pub has_bit-zero : (m : ℕ) → m < 8 → has_bit 0 (2 ^ m) ≡ false
has_bit-zero m h = same_eq _ _ (tested _ 0 8 m zero_table (omega arith) (omega arith))

pub or_bit-IsByte : (v k : ℕ) → v < 256 → k < 8 → IsByte (or_bit v (2 ^ k))
or_bit-IsByte v k hv hk = let h = and_right _ _ (bit_laws v k 0 hv hk (omega arith)) in ltb→lt _ _ h

module _ {ℓ} {A : Type ℓ} where
  pub get_elem?-set :
      (xs : List A) (q p : ℕ) (v : A) {x : A}
      → get_elem? xs q ≡ some x
      → get_elem? (set xs q v) p ≡ (if q == p then some v else get_elem? xs p)
  get_elem?-set [] q p v h = cc
  get_elem?-set (x ∷ xs) zero zero v h = refl
  get_elem?-set (x ∷ xs) zero (suc p) v h = ground arith
  get_elem?-set (x ∷ xs) (suc q) zero v h = ground arith
  get_elem?-set (x ∷ xs) (suc q) (suc p) v h = ground (arith, get_elem?-set xs q p v h)

  pub get_elem?-replicate : (n i : ℕ) (v : A) → i < n → get_elem? (replicate n v) i ≡ some v
  get_elem?-replicate zero i v h = absurd (omega arith)
  get_elem?-replicate (suc n) zero v h = refl
  get_elem?-replicate (suc n) (suc i) v h = get_elem?-replicate n i v (omega arith)

pub All-set {ℓ κ} :
    {A : Type ℓ} (P : A → Type κ) (xs : List A) (q : ℕ) (v : A)
    → All P xs
    → P v
    → All P (set xs q v)
All-set P [] q v h hv = h
All-set P (x ∷ xs) zero v h hv = (hv, h.1)
All-set P (x ∷ xs) (suc q) v h hv = (h.0, All-set P xs q v h.1 hv)
