-- ===== src/Field/Images.antt =====
-- The images of numbers and texts, as the readers of field.cpp take them.
use libslave.Common.{
  ℕ, zero, suc, ◌+◌, ◌*◌, ◌/◌, ◌%◌, ◌^◌, ◌≤◌, ◌<◌, ◌≡◌, refl, ap, arith, Bytes, [], ◌∷◌, ◌++◌,
  length, length-append, ok, ◌>>=◌, ltb, ltb-false, drop, take-append, drop-append, false,
}
use mathlib.Core.List.{append_assoc}
use mathlib.Core.Path.{◌∙◌}
use native.Mathlib.Nat.{pow-suc}
use libslave.Wire.{le, le_bytes}
use libslave.Wire.Laws.{length-le_bytes, le-le_bytes}
use libslave.Field.Defs.{FieldValue, string}
use libslave.Field.Temporal.{be_from}
use libslave.Field.Unpack.{peek, fixed, text}

-- The n bytes of a number, the highest first.
unfoldable pub be_bytes : ℕ → ℕ → Bytes
be_bytes zero v = []
be_bytes (suc n) v = be_bytes n (v / 256) ++ ((v % 256) ∷ [])

pub length-be_bytes : (n v : ℕ) → length (be_bytes n v) ≡ n
unfolding be_bytes
length-be_bytes zero v = refl
length-be_bytes (suc n) v =
    omega
      (arith, length-append (be_bytes n (v / 256)) ((v % 256) ∷ []), length-be_bytes n (v / 256))

be_from_last :
    (acc b : ℕ) (p rest : Bytes)
    → be_from acc (suc (length p)) (p ++ (b ∷ rest))
      ≡ be_from acc (length p) (p ++ (b ∷ rest)) * 256 + b
unfolding be_from
be_from_last acc b [] rest = refl
be_from_last acc b (x ∷ p) rest = be_from_last (acc * 256 + x) b p rest

pub be_from-be_bytes :
    (n v : ℕ) (rest : Bytes) → v < 256 ^ n → be_from 0 n (be_bytes n v ++ rest) ≡ v
unfolding be_bytes
be_from-be_bytes zero v rest h = unfold be_from in omega arith
be_from-be_bytes (suc n) v rest h =
    let p = be_bytes n (v / 256) in
    let b = v % 256 in
    let ih = be_from-be_bytes n (v / 256) (b ∷ rest) (omega (arith, pow-suc 256 n)) in
    let last : be_from 0 (suc n) (p ++ (b ∷ rest)) ≡ be_from 0 n (p ++ (b ∷ rest)) * 256 + b =
      rw (length-be_bytes n (v / 256)) at (be_from_last 0 b p rest) in
    rw (append_assoc p (b ∷ []) rest, last, ih) (omega arith)

fixed-append :
    (n : ℕ) (f : Bytes → FieldValue) (p rest : Bytes)
    → length p ≡ n
    → fixed n n f (p ++ rest) ≡ ok (f (p ++ rest), rest)
fixed-append n f p rest e = rw (
  ← e,
  ltb-false (length (p ++ rest)) (length p) (omega (arith, length-append p rest)),
  drop-append p rest,
)

text-append : (n : ℕ) (p rest : Bytes) → length p ≡ n → text n (p ++ rest) ≡ ok (string p, rest)
text-append n p rest e = rw (
  ← e,
  ltb-false (length (p ++ rest)) (length p) (omega (arith, length-append p rest)),
  take-append p rest,
  drop-append p rest,
)

-- A fixed length of more bytes than are read: the rest is a fraction of a second.
fixed_fraction :
    (n : ℕ) (f : Bytes → FieldValue) (p more rest : Bytes)
    → length p ≡ n
    → fixed n (n + length more) f ((p ++ more) ++ rest) ≡ ok (f (p ++ (more ++ rest)), rest)
fixed_fraction n f p more rest e =
    let size = length-append p more in
    rw (
      ← e,
      ← size,
      ltb-false (length ((p ++ more) ++ rest)) (length p)
          (omega (arith, length-append (p ++ more) rest, size)),
      drop-append (p ++ more) rest,
      append_assoc p more rest,
    )

pub number_as {ℓ} :
    {A : Type ℓ} (n v : ℕ) (read : Bytes → A) (decode : ℕ → A) (make : A → FieldValue)
    (rest : Bytes)
    → ((p : Bytes) → n ≤ length p → read p ≡ decode (le n p))
    → v < 256 ^ n
    → fixed n n (λ q. make (read q)) (le_bytes n v ++ rest) ≡ ok (make (decode v), rest)
number_as n v read decode make rest reads h =
    let size = length-le_bytes n v in
    fixed-append n (λ q. make (read q)) (le_bytes n v) rest size
    ∙ ap (λ x. ok (make x, rest))
        (reads _ (omega (arith, length-append (le_bytes n v) rest, size))
          ∙ ap decode (le-le_bytes n v rest h))

pub number :
    (n v : ℕ) (read : Bytes → ℕ) (make : ℕ → FieldValue) (rest : Bytes)
    → ((p : Bytes) → n ≤ length p → read p ≡ le n p)
    → v < 256 ^ n
    → fixed n n (λ q. make (read q)) (le_bytes n v ++ rest) ≡ ok (make v, rest)
number n v read make rest = number_as n v read (λ x. x) make rest

pub le_one : (b : ℕ) (rest : Bytes) → le 1 (b ∷ rest) ≡ b
unfolding le
le_one b rest = omega arith

pub one_byte :
    (make : ℕ → FieldValue) (b : ℕ) (rest : Bytes)
    → fixed 1 1 (λ q. make (le 1 q)) (b ∷ rest) ≡ ok (make b, rest)
one_byte make b rest =
    fixed-append 1 (λ q. make (le 1 q)) (b ∷ []) rest refl
    ∙ ap (λ x. ok (make x, rest)) (le_one b rest)

pub be_fraction :
    (n v : ℕ) (make : ℕ → FieldValue) (fraction rest : Bytes)
    → v < 256 ^ n
    → fixed n (n + length fraction) (λ q. make (be_from 0 n q)) ((be_bytes n v ++ fraction) ++ rest)
      ≡ ok (make v, rest)
be_fraction n v make fraction rest h =
    fixed_fraction n (λ q. make (be_from 0 n q)) (be_bytes n v) fraction rest (length-be_bytes n v)
    ∙ ap (λ x. ok (make x, rest)) (be_from-be_bytes n v (fraction ++ rest) h)

pub be_number :
    (n v : ℕ) (make : ℕ → FieldValue) (rest : Bytes)
    → v < 256 ^ n
    → fixed n n (λ q. make (be_from 0 n q)) (be_bytes n v ++ rest) ≡ ok (make v, rest)
be_number n v make rest h =
    fixed-append n (λ q. make (be_from 0 n q)) (be_bytes n v) rest (length-be_bytes n v)
    ∙ ap (λ x. ok (make x, rest)) (be_from-be_bytes n v rest h)

-- A length prefix of n bytes, as `read` reads it here, and the text behind it.
pub prefixed_as :
    (n : ℕ) (read : Bytes → ℕ) (s rest : Bytes)
    → read ((le_bytes n (length s) ++ s) ++ rest) ≡ length s
    → (peek n read ((le_bytes n (length s) ++ s) ++ rest) >>= λ k.
        text k (drop n ((le_bytes n (length s) ++ s) ++ rest)))
      ≡ ok (string s, rest)
prefixed_as n read s rest value =
    let front = le_bytes n (length s) in
    let size = length-le_bytes n (length s) in
    let long : ltb (length ((front ++ s) ++ rest)) n ≡ false =
      ltb-false _ _ (omega (arith, length-append (front ++ s) rest, length-append front s, size)) in
    let behind : drop n ((front ++ s) ++ rest) ≡ s ++ rest =
      rw (append_assoc front s rest) (rw size at (drop-append front (s ++ rest))) in
    rw (long, value, behind) (text-append (length s) s rest refl)

-- The prefix as the little-endian number that it is.
pub le_prefix :
    (n : ℕ) (s rest : Bytes)
    → length s < 256 ^ n
    → (n ≤ length ((le_bytes n (length s) ++ s) ++ rest))
      × (le n ((le_bytes n (length s) ++ s) ++ rest) ≡ length s)
le_prefix n s rest h =
    let front = le_bytes n (length s) in
    (
      omega (
        arith,
        length-append (front ++ s) rest,
        length-append front s,
        length-le_bytes n (length s),
      ),
      rw (append_assoc front s rest) (le-le_bytes n (length s) (s ++ rest) h),
    )

pub prefixed :
    (n : ℕ) (read : Bytes → ℕ) (s rest : Bytes)
    → ((p : Bytes) → n ≤ length p → read p ≡ le n p)
    → length s < 256 ^ n
    → (peek n read ((le_bytes n (length s) ++ s) ++ rest) >>= λ k.
        text k (drop n ((le_bytes n (length s) ++ s) ++ rest)))
      ≡ ok (string s, rest)
prefixed n read s rest reads h =
    let (size, value) = le_prefix n s rest h in prefixed_as n read s rest (reads _ size ∙ value)

pub prefixed_byte :
    (s rest : Bytes)
    → (peek 1 (le 1) (length s ∷ s ++ rest) >>= λ k. text k (s ++ rest)) ≡ ok (string s, rest)
prefixed_byte s rest =
    rw (ltb-false (suc (length (s ++ rest))) 1 (omega arith), le_one (length s) (s ++ rest))
      (text-append (length s) s rest refl)
