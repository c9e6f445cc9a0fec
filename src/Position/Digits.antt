-- ===== src/Position/Digits.antt =====
-- The numbers of `to_string`, read back by `atoi`.
use libslave.Common.{
  ℕ, zero, suc, ◌+◌, ◌-◌, ◌*◌, ◌/◌, ◌%◌, ◌^◌, ◌<◌, ◌≡◌, refl, ap, arith, true, false, Bytes, [],
  ◌∷◌, ◌++◌, ◌==◌, ltb, Bool-cases, inl, inr, ◌∙◌, some, none, Option, ◌≢◌,
}
use libslave.Common.Int.{ℤ, pos}
use libslave.Clib.{is_digit, is_space, digits, atoi, scan_int, skip_space, sign}
use libslave.Position.Text.{show_digits}
use libslave.Position.Tokens.{Every, Every-append}

digits-snoc :
    (a : ℕ) (s : Bytes) (m c : ℕ)
    → Every is_digit s
    → digits a s ≡ (m, [])
    → is_digit c ≡ true
    → digits a (s ++ (c ∷ [])) ≡ (m * 10 + (c - b'0'), [])
unfolding digits
digits-snoc a [] m c all e d = rw (d, ap (λ r. r.0) e)
digits-snoc a (x ∷ s) m c (first, all) e d =
    rw first (digits-snoc (a * 10 + (x - b'0')) s m c all (rw first at e) d)

digit : (n : ℕ) → n < 10 → is_digit (b'0' + n) ≡ true
digit n h = ground arith

pub show_digits-Every : (k n : ℕ) → Every is_digit (show_digits k n)
unfolding show_digits
show_digits-Every zero n = tt
show_digits-Every (suc k) n = elim (Bool-cases (ltb n 10)) [
  | inl h ↦ rw h (digit n (ground arith), tt)
  | inr h ↦ rw h (
      Every-append is_digit (show_digits k (n / 10)) _ (show_digits-Every k (n / 10))
        (digit (n % 10) (omega arith), tt))
]

digits-show_digits : (k n : ℕ) → n < 10 ^ k → digits 0 (show_digits k n) ≡ (n, [])
unfolding digits show_digits
digits-show_digits zero n h = rw (nothing n h) refl
  where
    nothing : (n : ℕ) → n < 10 ^ 0 → n ≡ 0
    nothing n h = omega arith
digits-show_digits (suc k) n h = elim (Bool-cases (ltb n 10)) [
  | inl l ↦ rw (l, digit n (ground arith)) (ap (λ m. (m, [])) (omega arith))
  | inr l ↦ rw l (
      digits-snoc 0 (show_digits k (n / 10)) (n / 10) (b'0' + n % 10) (show_digits-Every k (n / 10))
        (digits-show_digits k (n / 10) (front k n h)) (digit (n % 10) (omega arith))
      ∙ ap (λ m. (m, [])) (omega arith))
]
  where
    front : (k n : ℕ) → n < 10 ^ suc k → n / 10 < 10 ^ k
    front k n h = let p = 10 ^ k in omega arith

skip_space-digit : (c : ℕ) (s : Bytes) → is_digit c ≡ true → skip_space (c ∷ s) ≡ c ∷ s
skip_space-digit c s d = let space : is_space c ≡ false = ground arith in rw space

sign-digit :
    (c : ℕ) (s : Bytes)
    → is_digit c ≡ true
    → sign (c ∷ s) ≡ some (pos ((digits 0 (c ∷ s)).0), (digits 0 (c ∷ s)).1)
unfolding digits
sign-digit c s d =
    let minus : (c == b'-') ≡ false = ground arith in
    let plus : (c == b'+') ≡ false = ground arith in rw (minus, plus, d)

atoi-sign : (s t : Bytes) (n : ℤ) (r : Bytes) → skip_space s ≡ t → sign t ≡ some (n, r) → atoi s ≡ n
unfolding atoi scan_int digits
atoi-sign s t n r e e' =
    ap (λ (x : Option (ℤ × Bytes)). elim x [ none ↦ pos 0 | some v ↦ v.0 ]) (ap sign e ∙ e')

atoi-digits :
    (s : Bytes) (n : ℕ) → Every is_digit s → s ≢ [] → digits 0 s ≡ (n, []) → atoi s ≡ pos n
atoi-digits [] n all filled e = absurd (filled refl)
atoi-digits (c ∷ s) n (d, all) filled e =
    atoi-sign (c ∷ s) (c ∷ s) (pos n) [] (skip_space-digit c s d)
      (sign-digit c s d ∙ ap (λ r. some (pos r.0, r.1)) e)

pub show_digits-filled : (k n : ℕ) → show_digits (suc k) n ≢ []
unfolding show_digits
show_digits-filled k n e = elim (Bool-cases (ltb n 10)) [
  | inl l ↦ one (rw l at e)
  | inr l ↦ snoc (show_digits k (n / 10)) _ (rw l at e)
]
  where
    one : {c : ℕ} → ◌≡◌ {A = Bytes} (c ∷ []) [] → ⊥
    one e = cc

    snoc : (s : Bytes) (c : ℕ) → s ++ (c ∷ []) ≡ [] → ⊥
    snoc [] c e = cc
    snoc (x ∷ s) c e = cc

-- `to_string` of a number of at most 20 digits.
pub atoi-show_digits : (n : ℕ) → n < 10 ^ 20 → atoi (show_digits 20 n) ≡ pos n
atoi-show_digits n h =
    atoi-digits (show_digits 20 n) n (show_digits-Every 20 n) (show_digits-filled 19 n)
      (digits-show_digits 20 n h)
