-- ===== src/Gtid/Canon.antt =====
-- The canonical form of one server's list of intervals under `Position::addGtid`.
use libslave.Common.{◌⊎◌, inl, inr, arith, List, [], ◌∷◌, ◌++◌, if◌then◌else◌}
use libslave.Common.Int.{
  ℤ, ltb_ℤ, eqb_ℤ, ◌≤ℤ◌, ◌<ℤ◌, inc, dec, inc_parts, dec_parts, eqb_ℤ-cases, ltb_ℤ-cases,
  leb_ℤ-cases,
}
use libslave.Gtid.Defs.{
  Interval, Scan, returned, broke, ended, keep, scan, merge, single, finish, add_number,
}

-- Intervals are nonempty, ascend, and neither overlap nor touch.
abbrev pub Above : ℤ → List Interval → Type 0
Above n [] = Unit {0}
Above n (iv ∷ l) = inc n <ℤ iv.first

abbrev pub IsCanonical : List Interval → Type 0
IsCanonical [] = Unit {0}
IsCanonical (iv ∷ l) = (iv.first ≤ℤ iv.second) × Above iv.second l × IsCanonical l

-- What the first loop leaves behind: at most one pair of neighbours touches.
abbrev pub Touches : ℤ → List Interval → Type 0
Touches n [] = ⊥
Touches n (iv ∷ l) = (inc n ≤ℤ iv.first) × (iv.first ≤ℤ inc n)

abbrev pub IsNearlyCanonical : List Interval → Type 0
IsNearlyCanonical [] = Unit {0}
IsNearlyCanonical (iv ∷ l) =
    (iv.first ≤ℤ iv.second)
    × ((Above iv.second l × IsNearlyCanonical l) ⊎ (Touches iv.second l × IsCanonical l))

pub canonical→nearly : (l : List Interval) → IsCanonical l → IsNearlyCanonical l
canonical→nearly [] c = tt
canonical→nearly (iv ∷ l) c = (c.0, inl (c.1, canonical→nearly l c.2))

merge-Above : (m : ℤ) (l : List Interval) → Above m l → Above m (merge l)
unfolding merge
merge-Above m [] h = tt
merge-Above m (a ∷ []) h = h
merge-Above m (a ∷ b ∷ l) h = ground arith

merge-IsCanonical : (l : List Interval) → IsNearlyCanonical l → IsCanonical (merge l)
unfolding merge
merge-IsCanonical [] w = tt
merge-IsCanonical (a ∷ []) w = ground arith
merge-IsCanonical (a ∷ b ∷ l) (lo, inl (gap, w)) = elim (eqb_ℤ-cases (inc a.second) b.first) [
  | inl (e, le, ge) ↦ absurd (omega arith)
  | inr (e, ne) ↦ rw e (lo, merge-Above a.second (b ∷ l) gap, merge-IsCanonical (b ∷ l) w)
]
merge-IsCanonical (a ∷ b ∷ l) (lo, inr (near, c)) = elim (eqb_ℤ-cases (inc a.second) b.first) [
  | inl (e, le, ge) ↦ rw e (omega (arith, inc_parts a.second), c.1, c.2)
  | inr (e, ne) ↦ absurd (omega arith)
]

-- The five ways in which a nonempty interval lies towards `n`, and what the loop does then.
pub scan_cases {ℓ} :
    (P : Scan → Type ℓ) (n : ℤ) (iv : Interval) (l : List Interval)
    → iv.first ≤ℤ iv.second
    → (iv.first ≤ℤ n → n ≤ℤ iv.second → P (returned (iv ∷ l)))
    → (inc n ≤ℤ iv.first → iv.first ≤ℤ inc n → P (broke (record iv { first = dec iv.first } ∷ l)))
    → (n ≤ℤ inc iv.second
        → inc iv.second ≤ℤ n
        → P (broke (record iv { second = inc iv.second } ∷ l)))
    → (inc n <ℤ iv.first → P (returned (single n ∷ iv ∷ l)))
    → (inc iv.second <ℤ n → P (keep iv (scan n l)))
    → P (scan n (iv ∷ l))
unfolding scan
scan_cases P n iv l h within left right below above = elim (leb_ℤ-cases iv.first n) [
  | inl (e, lo) ↦ elim (leb_ℤ-cases n iv.second) [
    | inl (e', hi) ↦ rw (e, e') (within lo hi)
    | inr (e', hi) ↦ rw (e, e') (outside (omega arith))
  ]
  | inr (e, lo) ↦ rw e (outside (omega arith))
]
  where
    outside :
        (n <ℤ iv.first) ⊎ (iv.second <ℤ n)
        → P (
            if eqb_ℤ (inc n) iv.first
            then broke (record iv { first = dec iv.first } ∷ l)
            else if eqb_ℤ n (inc iv.second)
            then broke (record iv { second = inc iv.second } ∷ l)
            else if ltb_ℤ n iv.first
            then returned (single n ∷ iv ∷ l)
            else keep iv (scan n l))
    outside out = elim (eqb_ℤ-cases (inc n) iv.first) [
      | inl (e, le, ge) ↦ rw e (left le ge)
      | inr (e, ne) ↦ elim (eqb_ℤ-cases n (inc iv.second)) [
        | inl (e', le, ge) ↦ rw (e, e') (right le ge)
        | inr (e', ne') ↦ elim (ltb_ℤ-cases n iv.first) [
          | inl (e'', lt) ↦ rw (e, e', e'') (below (omega (arith, inc_parts n)))
          | inr (e'', ge) ↦
              rw (e, e', e'') (above (omega (arith, inc_parts iv.second, inc_parts n)))
        ]
      ]
    ]

-- What `scan n l` promises of a canonical `l`, with what it keeps clear below itself.
abbrev pub Clear : ℤ → List Interval → List Interval → Type 0
Clear n l l' = (m : ℤ) → inc m <ℤ n → Above m l → Above m l'

abbrev pub After : ℤ → List Interval → Scan → Type 0
After n l (returned l') = IsCanonical l' × Clear n l l'
After n l (broke l') = IsNearlyCanonical l' × Clear n l l'
After n l (ended l') = IsCanonical (l' ++ (single n ∷ [])) × Clear n l (l' ++ (single n ∷ []))

-- One interval that the loop passes, well below `n`.
keep-After :
    (n : ℤ) (iv : Interval) (l : List Interval) (r : Scan)
    → IsCanonical (iv ∷ l)
    → inc iv.second <ℤ n
    → After n l r
    → After n (iv ∷ l) (keep iv r)
keep-After n iv l (returned l') c h (c', clear) = ((c.0, clear iv.second h c.1, c'), λ m _ a. a)
keep-After n iv l (broke l') c h (c', clear) = ((c.0, inl (clear iv.second h c.1, c')), λ m _ a. a)
keep-After n iv l (ended l') c h (c', clear) = ((c.0, clear iv.second h c.1, c'), λ m _ a. a)

-- The interval `iv` grows at its end; what follows may now touch it.
grown-IsNearlyCanonical :
    (iv : Interval) (l : List Interval)
    → IsCanonical (iv ∷ l)
    → IsNearlyCanonical (record iv { second = inc iv.second } ∷ l)
grown-IsNearlyCanonical iv [] c = (omega (arith, c.0, inc_parts iv.second), inl (tt, tt))
grown-IsNearlyCanonical iv (b ∷ l) c = elim (ltb_ℤ-cases (inc (inc iv.second)) b.first) [
  | inl (_, gap) ↦ (omega (arith, inc_parts iv.second), inl (gap, canonical→nearly (b ∷ l) c.2))
  | inr (_, near) ↦ (
    omega (arith, inc_parts iv.second),
    inr ((omega (arith, inc_parts (inc iv.second)), near), c.2),
  )
]

pub scan-After : (n : ℤ) (l : List Interval) → IsCanonical l → After n l (scan n l)
unfolding scan
scan-After n [] c = ((omega arith, tt, tt), λ m h a. h)
scan-After n (iv ∷ l) c =
    scan_cases (After n (iv ∷ l)) n iv l c.0 (λ _ _. (c, λ m h a. a))
      (λ le ge. (
        canonical→nearly (record iv { first = dec iv.first } ∷ l)
            (omega (arith, c.0, dec_parts iv.first, inc_parts n), c.1, c.2),
        λ m h a. omega (arith, dec_parts iv.first, inc_parts n),
      ))
      (λ le ge. (grown-IsNearlyCanonical iv l c, λ m h a. a))
      (λ gap. ((omega arith, gap, c), λ m h a. h))
      (λ gap. keep-After n iv l (scan n l) c gap (scan-After n l c.2))

-- Adding a transaction number keeps the list canonical.
pub add_number-IsCanonical :
    (n : ℤ) (l : List Interval) → IsCanonical l → IsCanonical (add_number n l)
unfolding add_number
add_number-IsCanonical n l c = go (scan n l) (scan-After n l c)
  where
    go : (r : Scan) → After n l r → IsCanonical (finish n r)
    go (returned l') (c', _) = c'
    go (broke l') (c', _) = merge-IsCanonical l' c'
    go (ended l') (c', _) = merge-IsCanonical _ (canonical→nearly _ c')
