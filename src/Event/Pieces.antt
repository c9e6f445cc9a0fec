-- ===== src/Event/Pieces.antt =====
-- Bytes behind the front of a packet.
use libslave.Common.{
  ℕ, zero, suc, ◌+◌, ◌≡◌, refl, ap, sym, ◌∙◌, arith, false, Bytes, [], ◌∷◌, ◌++◌, ok, drop, length,
  length-append, take-append, drop-append, ltb,
}
use libslave.Event.Headers.{assign}

drop-nil : (n : ℕ) → ◌≡◌ {A = Bytes} (drop n []) []
drop-nil zero = refl
drop-nil (suc n) = refl

pub drop-drop : (m n : ℕ) (s : Bytes) → drop (m + n) s ≡ drop n (drop m s)
drop-drop zero n s = ap (λ k. drop k s) (omega arith)
drop-drop (suc m) n [] = ap (λ k. drop k []) (step m n) ∙ sym (drop-nil n)
  where
    step : (m n : ℕ) → suc m + n ≡ suc (m + n)
    step m n = omega arith
drop-drop (suc m) n (c ∷ s) = ap (λ k. drop k (c ∷ s)) (step m n) ∙ drop-drop m n s
  where
    step : (m n : ℕ) → suc m + n ≡ suc (m + n)
    step m n = omega arith

pub drop-front : (n : ℕ) (s t : Bytes) → length s ≡ n → drop n (s ++ t) ≡ t
drop-front n s t e = ap (λ k. drop k (s ++ t)) (sym e) ∙ drop-append s t

pub assign-front : (s t : Bytes) → assign (length s) (s ++ t) ≡ ok s
assign-front s t =
    let size = length-append s t in
    let inside : ltb (length (s ++ t)) (length s) ≡ false = ground arith in
    rw inside (ap ok (take-append s t))
