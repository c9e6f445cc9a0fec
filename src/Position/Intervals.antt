-- ===== src/Position/Intervals.antt =====
-- An interval as text, read back.
use libslave.Common.{
  ℕ, ◌<◌, ◌^◌, ◌≡◌, refl, ap, arith, Bool, true, Bytes, [], ◌∷◌, ◌++◌, ◌==◌, ◌||◌, ◌≢◌, Bool-cases,
  inl, inr,
}
use libslave.Common.Int.{ℤ, pos, negsuc, eqb_ℤ}
use libslave.Clib.{is_digit, atoi}
use libslave.Gtid.Defs.{Interval}
use libslave.Position.Text.{to_string, show_interval, parse_interval}
use libslave.Position.Tokens.{Every, Every-weaken, Every-append, in_run, IsRun, parse_list-join}
use libslave.Position.Digits.{show_digits-Every, show_digits-filled, atoi-show_digits}

-- A transaction number that `int64_t` holds and that is not below zero.
abbrev pub IsNumber : ℤ → Type 0
IsNumber (pos n) = n < 2 ^ 63
IsNumber (negsuc n) = ⊥

abbrev pub IsNumbered : Interval → Type 0
IsNumbered iv = IsNumber iv.first × IsNumber iv.second

atoi-to_string : (x : ℤ) → IsNumber x → atoi (to_string x) ≡ x
unfolding to_string
atoi-to_string (pos n) h = atoi-show_digits n (omega arith)
atoi-to_string (negsuc n) h = elim h [ ]

to_string-digits : (x : ℤ) → IsNumber x → Every is_digit (to_string x) × (to_string x ≢ [])
unfolding to_string
to_string-digits (pos n) h = (show_digits-Every 20 n, show_digits-filled 19 n)
to_string-digits (negsuc n) h = elim h [ ]

to_string-IsRun : (x : ℤ) → IsNumber x → IsRun b'-' (to_string x)
to_string-IsRun x h =
    let (all, filled) = to_string-digits x h in
    (Every-weaken is_digit (in_run b'-') (to_string x) (λ c d. ground arith) all, filled)

eqb_ℤ-eq : (x y : ℤ) → eqb_ℤ x y ≡ true → IsNumber x → IsNumber y → x ≡ y
unfolding eqb_ℤ
eqb_ℤ-eq (pos m) (pos n) e h k = ap pos (ground arith)
eqb_ℤ-eq (negsuc m) y e h k = elim h [ ]
eqb_ℤ-eq (pos m) (negsuc n) e h k = elim k [ ]

pub parse_interval-show_interval :
    (iv : Interval) → IsNumbered iv → parse_interval (show_interval iv) ≡ iv
unfolding parse_interval show_interval
parse_interval-show_interval iv (h, k) = elim (Bool-cases (eqb_ℤ iv.first iv.second)) [
  | inl e ↦
      let one =
        parse_list-join b'-' (to_string iv.first ∷ []) refl (to_string-IsRun iv.first h, tt) in
      rw (e, one, atoi-to_string iv.first h)
        (ap (λ y. record { first = iv.first; second = y }) (eqb_ℤ-eq iv.first iv.second e h k))
  | inr e ↦
      let two =
        parse_list-join b'-' (to_string iv.first ∷ to_string iv.second ∷ []) refl
          (to_string-IsRun iv.first h, (to_string-IsRun iv.second k, tt)) in
      rw (e, two, atoi-to_string iv.first h, atoi-to_string iv.second k) refl
]

-- The characters of an interval.
abbrev pub in_interval : ℕ → Bool
in_interval c = is_digit c || c == b'-'

pub append-filled : (s t : Bytes) → s ≢ [] → s ++ t ≢ []
append-filled [] t filled e = filled refl
append-filled (c ∷ s) t filled e = cc

pub show_interval-in_interval :
    (iv : Interval) → IsNumbered iv → Every in_interval (show_interval iv) × (show_interval iv ≢ [])
unfolding show_interval
show_interval-in_interval iv (h, k) =
    let (digits_first, filled) = to_string-digits iv.first h in
    let (digits_second, _) = to_string-digits iv.second k in
    let wide : (s : Bytes) → Every is_digit s → Every in_interval s =
      λ s all. Every-weaken is_digit in_interval s (λ c d. ground arith) all in
    elim (Bool-cases (eqb_ℤ iv.first iv.second)) [
      | inl e ↦ rw e (wide (to_string iv.first) digits_first, filled)
      | inr e ↦ rw e (
        Every-append in_interval (to_string iv.first) _ (wide (to_string iv.first) digits_first)
            (refl, wide (to_string iv.second) digits_second),
        append-filled (to_string iv.first) _ filled,
      )
    ]
