-- ===== src/Slave/FreeId.antt =====
-- The search of `generateSlaveId` for an id that no slave has.
use libslave.Common.{
  ℕ, zero, suc, ◌+◌, ◌%◌, ◌^◌, ◌≤◌, ◌<◌, ◌≡◌, refl, ap, arith, true, false, List, [], ◌∷◌, Option,
  some, none, if◌then◌else◌, ◌==◌, ==_iff, length, Bool-cases, inl, inr, ◌⊎◌,
}
use libslave.Slave.Requests.{contains, first_free}

-- The ids that the search tries, one for each unit of fuel.
abbrev walk : ℕ → ℕ → List ℕ
walk zero n = []
walk (suc fuel) n = n ∷ walk fuel ((n + 1) % 2 ^ 32)

abbrev AllIn : List ℕ → List ℕ → Type 0
AllIn ids [] = Unit {0}
AllIn ids (x ∷ xs) = (contains ids x ≡ true) × AllIn ids xs

abbrev Differs : ℕ → List ℕ → Type 0
Differs n [] = Unit {0}
Differs n (x ∷ xs) = ((n == x) ≡ false) × Differs n xs

abbrev Distinct : List ℕ → Type 0
Distinct [] = Unit {0}
Distinct (x ∷ xs) = Differs x xs × Distinct xs

abbrev pub IsFree : List ℕ → Option ℕ → Type 0
IsFree ids none = ⊥
IsFree ids (some n) = contains ids n ≡ false

-- The search finds a free id, or every id that it tries is in use.
first_free-walk :
    (fuel : ℕ) (ids : List ℕ) (n : ℕ) → IsFree ids (first_free fuel ids n) ⊎ AllIn ids (walk fuel n)
unfolding first_free
first_free-walk zero ids n = inr tt
first_free-walk (suc fuel) ids n = elim (Bool-cases (contains ids n)) [
  | inl e ↦ elim (first_free-walk fuel ids ((n + 1) % 2 ^ 32)) [
    | inl free ↦ inl (rw e free)
    | inr all ↦ inr (e, all)
  ]
  | inr e ↦ inl (rw e e)
]

-- The list without its first x.
abbrev remove : ℕ → List ℕ → List ℕ
remove x [] = []
remove x (y ∷ ys) = let rest = remove x ys in if y == x then ys else y ∷ rest

length-remove :
    (x : ℕ) (ids : List ℕ) → contains ids x ≡ true → length ids ≡ suc (length (remove x ids))
length-remove x [] e = cc
length-remove x (y ∷ ids) e = elim (Bool-cases (y == x)) [
  | inl q ↦ rw q
  | inr q ↦ rw q (ap suc (length-remove x ids (rw q at e)))
]

contains-remove :
    (x y : ℕ) (ids : List ℕ)
    → (x == y) ≡ false
    → contains ids y ≡ true
    → contains (remove x ids) y ≡ true
contains-remove x y [] d e = e
contains-remove x y (z ∷ ids) d e = elim (Bool-cases (z == x)) [
  | inl q ↦ let other : (z == y) ≡ false = rw (← (==_iff z x).0 q) at d in rw q (rw other at e)
  | inr q ↦ elim (Bool-cases (z == y)) [
    | inl r ↦ rw (q, r)
    | inr r ↦ rw (q, r) (contains-remove x y ids d (rw r at e))
  ]
]

AllIn-remove : (x : ℕ) (ids xs : List ℕ) → Differs x xs → AllIn ids xs → AllIn (remove x ids) xs
AllIn-remove x ids [] d all = tt
AllIn-remove x ids (y ∷ xs) (d, ds) (e, all) =
    (contains-remove x y ids d e, AllIn-remove x ids xs ds all)

-- Different ids that are all in a list are no more than the list has.
pigeonhole : (ids xs : List ℕ) → Distinct xs → AllIn ids xs → length xs ≤ length ids
pigeonhole ids [] d all = omega arith
pigeonhole ids (x ∷ xs) (d, ds) (e, all) =
    let less = length-remove x ids e in
    let rest = pigeonhole (remove x ids) xs ds (AllIn-remove x ids xs d all) in omega arith

length-walk : (fuel n : ℕ) → length (walk fuel n) ≡ fuel
length-walk zero n = refl
length-walk (suc fuel) n = ap suc (length-walk fuel ((n + 1) % 2 ^ 32))

walk-Differs :
    (fuel n m d : ℕ)
    → n < 2 ^ 32
    → (n + d) % 2 ^ 32 ≡ m
    → 0 < d
    → d + fuel ≤ 2 ^ 32
    → Differs n (walk fuel m)
walk-Differs zero n m d h e p q = tt
walk-Differs (suc fuel) n m d h e p q = (
  ground arith,
  walk-Differs fuel n ((m + 1) % 2 ^ 32) (suc d) h (omega arith) (omega arith) (omega arith),
)

walk-Distinct : (fuel n : ℕ) → n < 2 ^ 32 → fuel ≤ 2 ^ 32 → Distinct (walk fuel n)
walk-Distinct zero n h q = tt
walk-Distinct (suc fuel) n h q = (
  walk-Differs fuel n ((n + 1) % 2 ^ 32) 1 h refl (omega arith) (omega arith),
  walk-Distinct fuel ((n + 1) % 2 ^ 32) (omega arith) (omega arith),
)

-- The search ends, and with an id that is not in use, whatever 32-bit number it starts from, where
-- fewer than 2^32 ids are in use: one more try than ids is enough.
pub first_free-IsFree :
    (ids : List ℕ) (n : ℕ)
    → length ids < 2 ^ 32
    → n < 2 ^ 32
    → IsFree ids (first_free (suc (length ids)) ids n)
first_free-IsFree ids n few h = elim (first_free-walk (suc (length ids)) ids n) [
  | inl free ↦ free
  | inr all ↦
      let tried = length-walk (suc (length ids)) n in
      let held =
        pigeonhole ids (walk (suc (length ids)) n)
          (walk-Distinct (suc (length ids)) n h (omega arith)) all in
      absurd (omega arith)
]
