-- ===== src/Gtid/Members.antt =====
-- What `Position::addGtid` adds: the transaction numbers in one server's list of intervals.
use libslave.Common.{◌≡◌, refl, ◌⊎◌, inl, inr, ◌↔◌, arith, List, [], ◌∷◌, ◌++◌}
use libslave.Common.Int.{
  ℤ, leb_ℤ-cases, ◌≤ℤ◌, ◌<ℤ◌, inc, dec, inc_parts, dec_parts, eqb_ℤ-cases, eq_of_parts,
}
use libslave.Gtid.Defs.{
  Interval, Scan, returned, broke, ended, keep, scan, merge, single, finish, add_number,
}
use libslave.Gtid.Canon.{
  IsCanonical, IsNearlyCanonical, After, scan_cases, scan-After, canonical→nearly,
}

abbrev pub Within : ℤ → Interval → Type 0
Within x iv = (iv.first ≤ℤ x) × (x ≤ℤ iv.second)

-- `x` is in one of the intervals.
abbrev pub In : ℤ → List Interval → Type 0
In x [] = ⊥
In x (iv ∷ l) = Within x iv ⊎ In x l

-- Equality of integers as two orders, which the arithmetic reads.
abbrev Same : ℤ → ℤ → Type 0
Same x n = (x ≤ℤ n) × (n ≤ℤ x)

-- The lists hold the same numbers, but for `n` in the second.
abbrev Gains : ℤ → List Interval → List Interval → Type 0
Gains n l l' = (x : ℤ) → (In x l' → In x l ⊎ Same x n) × (In x l ⊎ Same x n → In x l')

Or-map {ℓ κ μ} : {A : Type ℓ} {B : Type κ} {C : Type μ} → (B → C) → A ⊎ B → A ⊎ C
Or-map f (inl a) = inl a
Or-map f (inr b) = inr (f b)

-- Three ways in which a rewritten list holds the same numbers; `R` is what the tail holds.
join-Within :
    (R : Type 0) (a b : Interval) (x : ℤ)
    → a.first ≤ℤ a.second
    → b.first ≤ℤ b.second
    → inc a.second ≤ℤ b.first
    → b.first ≤ℤ inc a.second
    → (Within x (record a { second = b.second }) ⊎ R) ↔ (Within x a ⊎ Within x b ⊎ R)
join-Within R a b x ha hb le ge = (there, back)
  where
    there : Within x (record a { second = b.second }) ⊎ R → Within x a ⊎ Within x b ⊎ R
    there (inr r) = inr (inr r)
    there (inl (lo, hi)) = elim (leb_ℤ-cases x a.second) [
      | inl (_, h) ↦ inl (lo, h)
      | inr (_, h) ↦ inr (inl (omega (arith, inc_parts a.second), hi))
    ]

    back : Within x a ⊎ Within x b ⊎ R → Within x (record a { second = b.second }) ⊎ R
    back (inl (lo, hi)) = inl (lo, omega (arith, inc_parts a.second))
    back (inr (inl (lo, hi))) = inl (omega (arith, inc_parts a.second), hi)
    back (inr (inr r)) = inr r

merge-In : (l : List Interval) → IsNearlyCanonical l → (x : ℤ) → In x (merge l) ↔ In x l
unfolding merge
merge-In [] w x = (λ h. h, λ h. h)
merge-In (a ∷ []) w x = (λ h. h, λ h. h)
merge-In (a ∷ b ∷ l) (ha, inl (gap, w)) x = elim (eqb_ℤ-cases (inc a.second) b.first) [
  | inl (e, le, ge) ↦ absurd (omega arith)
  | inr (e, ne) ↦ let (there, back) = merge-In (b ∷ l) w x in rw e (Or-map there, Or-map back)
]
merge-In (a ∷ b ∷ l) (ha, inr (near, c)) x = elim (eqb_ℤ-cases (inc a.second) b.first) [
  | inl (e, le, ge) ↦ rw e (join-Within (In x l) a b x ha c.0 near.0 near.1)
  | inr (e, ne) ↦ absurd (omega arith)
]

abbrev ScanGains : ℤ → List Interval → Scan → Type 0
ScanGains n l (returned l') = Gains n l l'
ScanGains n l (broke l') = Gains n l l'
ScanGains n l (ended l') = Gains n l (l' ++ (single n ∷ []))

extend_below :
    (R : Type 0) (n x : ℤ) (iv : Interval)
    → iv.first ≤ℤ iv.second
    → inc n ≤ℤ iv.first
    → iv.first ≤ℤ inc n
    → (Within x (record iv { first = dec iv.first }) ⊎ R) ↔ ((Within x iv ⊎ R) ⊎ Same x n)
extend_below R n x iv h le ge = (there, back)
  where
    there : Within x (record iv { first = dec iv.first }) ⊎ R → (Within x iv ⊎ R) ⊎ Same x n
    there (inr r) = inl (inr r)
    there (inl (lo, hi)) = elim (leb_ℤ-cases iv.first x) [
      | inl (_, h') ↦ inl (inl (h', hi))
      | inr (_, h') ↦ inr (omega (arith, inc_parts n, dec_parts iv.first))
    ]

    back : (Within x iv ⊎ R) ⊎ Same x n → Within x (record iv { first = dec iv.first }) ⊎ R
    back (inl (inl (lo, hi))) = inl (omega (arith, dec_parts iv.first), hi)
    back (inl (inr r)) = inr r
    back (inr s) = inl (omega (arith, inc_parts n, dec_parts iv.first))

extend_above :
    (R : Type 0) (n x : ℤ) (iv : Interval)
    → iv.first ≤ℤ iv.second
    → n ≤ℤ inc iv.second
    → inc iv.second ≤ℤ n
    → (Within x (record iv { second = inc iv.second }) ⊎ R) ↔ ((Within x iv ⊎ R) ⊎ Same x n)
extend_above R n x iv h le ge = (there, back)
  where
    there : Within x (record iv { second = inc iv.second }) ⊎ R → (Within x iv ⊎ R) ⊎ Same x n
    there (inr r) = inl (inr r)
    there (inl (lo, hi)) = elim (leb_ℤ-cases x iv.second) [
      | inl (_, h') ↦ inl (inl (lo, h'))
      | inr (_, h') ↦ inr (omega (arith, inc_parts iv.second))
    ]

    back : (Within x iv ⊎ R) ⊎ Same x n → Within x (record iv { second = inc iv.second }) ⊎ R
    back (inl (inl (lo, hi))) = inl (lo, omega (arith, inc_parts iv.second))
    back (inl (inr r)) = inr r
    back (inr s) = inl (omega (arith, inc_parts iv.second))

-- The number is in already.
Gains-none :
    (n : ℤ) (l : List Interval) → In n l → ((x : ℤ) → Same x n → In n l → In x l) → Gains n l l
Gains-none n l h move x = (inl, back)
  where
    back : In x l ⊎ Same x n → In x l
    back (inl i) = i
    back (inr s) = move x s h

-- The number becomes an interval of its own, in front.
Gains-front : (n : ℤ) (l : List Interval) → Gains n l (single n ∷ l)
Gains-front n l x = (there, back)
  where
    there : Within x (single n) ⊎ In x l → In x l ⊎ Same x n
    there (inl (lo, hi)) = inr (hi, lo)
    there (inr i) = inl i

    back : In x l ⊎ Same x n → Within x (single n) ⊎ In x l
    back (inl i) = inr i
    back (inr (le, ge)) = inl (ge, le)

Gains-later :
    (n : ℤ) (iv : Interval) (l l' : List Interval) → Gains n l l' → Gains n (iv ∷ l) (iv ∷ l')
Gains-later n iv l l' g x = (there, back)
  where
    there : Within x iv ⊎ In x l' → (Within x iv ⊎ In x l) ⊎ Same x n
    there (inl w) = inl (inl w)
    there (inr i) = elim ((g x).0 i) [ inl j ↦ inl (inr j) | inr s ↦ inr s ]

    back : (Within x iv ⊎ In x l) ⊎ Same x n → Within x iv ⊎ In x l'
    back (inl (inl w)) = inl w
    back (inl (inr i)) = inr ((g x).1 (inl i))
    back (inr s) = inr ((g x).1 (inr s))

keep-ScanGains :
    (n : ℤ) (iv : Interval) (l : List Interval) (r : Scan)
    → ScanGains n l r
    → ScanGains n (iv ∷ l) (keep iv r)
keep-ScanGains n iv l (returned l') g = Gains-later n iv l l' g
keep-ScanGains n iv l (broke l') g = Gains-later n iv l l' g
keep-ScanGains n iv l (ended l') g = Gains-later n iv l _ g

scan-ScanGains : (n : ℤ) (l : List Interval) → IsCanonical l → ScanGains n l (scan n l)
unfolding scan
scan-ScanGains n [] c = Gains-front n []
scan-ScanGains n (iv ∷ l) c =
    scan_cases (ScanGains n (iv ∷ l)) n iv l c.0
      (λ lo hi. Gains-none n (iv ∷ l) (inl (lo, hi)) (λ x s _. inl (omega arith)))
      (λ le ge x. extend_below (In x l) n x iv c.0 le ge)
      (λ le ge x. extend_above (In x l) n x iv c.0 le ge) (λ gap. Gains-front n (iv ∷ l))
      (λ gap. keep-ScanGains n iv l (scan n l) (scan-ScanGains n l c.2))

finish-Gains :
    (n : ℤ) (l : List Interval) (r : Scan) → After n l r → ScanGains n l r → Gains n l (finish n r)
finish-Gains n l (returned l') a g x = g x
finish-Gains n l (broke l') a g x =
    let (there, back) = merge-In l' a.0 x in (λ h. (g x).0 (there h), λ h. back ((g x).1 h))
finish-Gains n l (ended l') a g x =
    let (there, back) = merge-In _ (canonical→nearly _ a.0) x in
    (λ h. (g x).0 (there h), λ h. back ((g x).1 h))

-- On a canonical list `addGtid` adds the number, and adds and loses nothing else.
pub In-add_number :
    (n : ℤ) (l : List Interval)
    → IsCanonical l
    → (x : ℤ) → In x (add_number n l) ↔ (In x l ⊎ (x ≡ n))
unfolding add_number
In-add_number n l c x = (
  λ h. Or-map (λ s. eq_of_parts x n (omega arith)) ((gains x).0 h),
  λ h. (gains x).1 (Or-map (λ e. rw e (omega arith)) h),
)
  where
    gains : Gains n l (finish n (scan n l))
    gains = finish-Gains n l (scan n l) (scan-After n l c) (scan-ScanGains n l c)

-- Members of the tail lie well above the head.
above_head :
    (iv : Interval) (l : List Interval) (x : ℤ) → IsCanonical (iv ∷ l) → In x l → inc iv.second <ℤ x
above_head iv [] x c i = elim i [ ]
above_head iv (b ∷ l) x (h, gap, c) (inl (lo, hi)) = omega arith
above_head iv (b ∷ l) x (h, gap, c) (inr i) =
    omega (arith, above_head b l x c i, inc_parts b.second, inc_parts iv.second, c.0)

scan-In : (n : ℤ) (l : List Interval) → IsCanonical l → In n l → scan n l ≡ returned l
scan-In n [] c i = elim i [ ]
scan-In n (iv ∷ l) c i =
    scan_cases (λ r. r ≡ returned (iv ∷ l)) n iv l c.0 (λ _ _. refl)
      (λ le ge. absurd (outside i (omega (arith, inc_parts n))))
      (λ le ge. absurd (beyond i (omega (arith, inc_parts iv.second)) (omega arith)))
      (λ gap. absurd (outside i (omega (arith, inc_parts n))))
      (λ gap. later i gap (λ j. scan-In n l c.2 j))
  where
    outside : Within n iv ⊎ In n l → n <ℤ iv.first → ⊥
    outside (inl w) h = omega arith
    outside (inr j) h = omega (arith, above_head iv l n c j, c.0, inc_parts iv.second)

    beyond : Within n iv ⊎ In n l → iv.second <ℤ n → n ≤ℤ inc iv.second → ⊥
    beyond (inl w) h h' = omega arith
    beyond (inr j) h h' = omega (arith, above_head iv l n c j)

    later :
        Within n iv ⊎ In n l
        → inc iv.second <ℤ n
        → (In n l → scan n l ≡ returned l)
        → keep iv (scan n l) ≡ returned (iv ∷ l)
    later (inl w) gap ih = absurd (omega (arith, inc_parts iv.second))
    later (inr j) gap ih = rw (ih j)

-- On a canonical list, to add a number that is in already changes nothing.
pub add_number_again : (n : ℤ) (l : List Interval) → IsCanonical l → In n l → add_number n l ≡ l
unfolding add_number
add_number_again n l c i = rw (scan-In n l c i)
