-- ===== src/Position/Tokens.antt =====
-- The lists of `parse_list_f`: a text of runs with delimiters between them.
use libslave.Common.{
  ℕ, ◌≡◌, refl, ap, sym, Bool, true, false, Bytes, List, [], ◌∷◌, ◌++◌, ◌==◌, if◌then◌else◌, not,
  ==_iff, ◌≢◌, Bool-cases, inl, inr, ◌∙◌,
}
use mathlib.Core.List.{append_assoc, append-nil}
use libslave.Position.Text.{parse_list, join, remove_copy}

-- Every character passes the test.
abbrev pub Every : (ℕ → Bool) → Bytes → Type 0
Every test [] = Unit {0}
Every test (c ∷ s) = (test c ≡ true) × Every test s

abbrev pub Each {ℓ} : {A : Type ℓ} → (A → Type 0) → List A → Type 0
Each P [] = Unit {0}
Each P (a ∷ l) = P a × Each P l

pub Every-append :
    (test : ℕ → Bool) (s t : Bytes) → Every test s → Every test t → Every test (s ++ t)
Every-append test [] t h k = k
Every-append test (c ∷ s) t (e, h) k = (e, Every-append test s t h k)

pub Every-weaken :
    (p q : ℕ → Bool) (s : Bytes) → ((c : ℕ) → p c ≡ true → q c ≡ true) → Every p s → Every q s
Every-weaken p q [] w h = tt
Every-weaken p q (c ∷ s) w (e, h) = (w c e, Every-weaken p q s w h)

-- The test of a character that the list with this delimiter keeps in a run.
abbrev pub in_run : ℕ → ℕ → Bool
in_run delim c = if c == 0 then false else if c == delim then false else true

abbrev pub IsRun : ℕ → Bytes → Type 0
IsRun delim s = Every (in_run delim) s × (s ≢ [])

in_run-tests : (delim c : ℕ) → in_run delim c ≡ true → ((c == 0) ≡ false) × ((c == delim) ≡ false)
in_run-tests delim c h = elim (Bool-cases (c == 0)) [
  | inl z ↦ absurd (clash (rw z at h))
  | inr z ↦ elim (Bool-cases (c == delim)) [
    | inl d ↦ absurd (clash (rw (z, d) at h))
    | inr d ↦ (z, d)
  ]
]
  where
    clash : false ≡ true → ⊥
    clash e = cc

parse_list-run :
    (delim : ℕ) (run s rest : Bytes)
    → Every (in_run delim) s
    → parse_list delim run (s ++ rest) ≡ parse_list delim (run ++ s) rest
unfolding parse_list
parse_list-run delim run [] rest h = ap (λ r. parse_list delim r rest) (sym (append-nil run))
parse_list-run delim run (c ∷ s) rest (e, h) =
    let (z, d) = in_run-tests delim c e in
    rw (z, d, parse_list-run delim (run ++ (c ∷ [])) s rest h, append_assoc run (c ∷ []) s)

parse_list-end : (delim c : ℕ) (s : Bytes) → parse_list delim (c ∷ s) [] ≡ (c ∷ s) ∷ []
unfolding parse_list
parse_list-end delim c s = refl

parse_list-delim :
    (delim c : ℕ) (s rest : Bytes)
    → (delim == 0) ≡ false
    → parse_list delim (c ∷ s) (delim ∷ rest) ≡ (c ∷ s) ∷ parse_list delim [] rest
unfolding parse_list
parse_list-delim delim c s rest n =
    let same : (delim == delim) ≡ true = (==_iff _ _).1 refl in rw (n, same)

parse_list-nil : (delim : ℕ) → parse_list delim [] [] ≡ []
unfolding parse_list
parse_list-nil delim = refl

-- The list of a text of runs with the delimiter between them is the runs.
pub parse_list-join :
    (delim : ℕ) (runs : List Bytes)
    → (delim == 0) ≡ false
    → Each (IsRun delim) runs
    → parse_list delim [] (join delim runs) ≡ runs
parse_list-join delim [] n h = parse_list-nil delim
parse_list-join delim ([] ∷ runs) n ((e, filled), h) = absurd (filled refl)
parse_list-join delim ((c ∷ s) ∷ []) n ((e, filled), h) =
    ap (parse_list delim []) (sym (append-nil (c ∷ s)))
    ∙ (parse_list-run delim [] (c ∷ s) [] e ∙ parse_list-end delim c s)
parse_list-join delim ((c ∷ s) ∷ t ∷ runs) n ((e, filled), h) =
    parse_list-run delim [] (c ∷ s) (delim ∷ join delim (t ∷ runs)) e
    ∙ (parse_list-delim delim c s (join delim (t ∷ runs)) n
        ∙ ap (λ l. (c ∷ s) ∷ l) (parse_list-join delim (t ∷ runs) n h))

pub Every-join :
    (test : ℕ → Bool) (delim : ℕ) (runs : List Bytes)
    → test delim ≡ true
    → Each (Every test) runs
    → Every test (join delim runs)
Every-join test delim [] d h = tt
Every-join test delim (s ∷ []) d (e, h) = e
Every-join test delim (s ∷ t ∷ runs) d (e, h) =
    Every-append test s (delim ∷ join delim (t ∷ runs)) e (d, Every-join test delim (t ∷ runs) d h)

-- Nothing is removed from a text where the test fails everywhere.
pub remove_copy-Every :
    (drops : ℕ → Bool) (s : Bytes) → Every (λ c. not (drops c)) s → remove_copy drops s ≡ s
remove_copy-Every drops [] h = refl
remove_copy-Every drops (c ∷ s) (e, h) = rw (not_false (drops c) e, remove_copy-Every drops s h)
  where
    not_false : (b : Bool) → not b ≡ true → b ≡ false
    not_false true e = cc
    not_false false e = refl
