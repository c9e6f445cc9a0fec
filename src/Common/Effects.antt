-- ===== src/Common/Effects.antt =====
-- Calls that change a state and may throw: the state that they leave stands beside how they end.
use mathlib.Core.Path.{◌≡◌, refl}
use mathlib.Core.Bool.{Bool, true, false}
use libslave.Common.Tests.{if◌then◌else◌}
use libslave.Common.Results.{Outcome, ok, throws, fault, Ensures}

abbrev pub M : Type 0 → Type 0 → Type 0
M S A = S → Outcome A × S

abbrev pub after : {S A B : Type 0} → (A → M S B) → Outcome A × S → Outcome B × S
after f (ok a, s) = f a s
after f (throws e, s) = (throws e, s)
after f (fault, s) = (fault, s)

infixl 5 ◌>>=◌ ◌>>◌
abbrev pub ◌>>=◌ : {S A B : Type 0} → M S A → (A → M S B) → M S B
◌>>=◌ m f s = after f (m s)

abbrev pub ◌>>◌ : {S B : Type 0} → M S (Unit {0}) → M S B → M S B
m >> k = m >>= λ _. k

abbrev pub lift : {S A : Type 0} → Outcome A → M S A
lift r s = (r, s)

abbrev pub pure : {S A : Type 0} → A → M S A
pure a s = (ok a, s)

-- The state as it is.
abbrev pub get : {S : Type 0} → M S S
get s = (ok s, s)

abbrev pub modify : {S : Type 0} → (S → S) → M S (Unit {0})
modify f s = (ok tt, f s)

abbrev pub when : {S : Type 0} → Bool → M S (Unit {0}) → M S (Unit {0})
when true m s = m s
when false m s = (ok tt, s)

-- `m` keeps P however it ends.
unfoldable pub Keeps : {S A : Type 0} → (S → Type 0) → M S A → Type 0
Keeps {S} P m = (s : S) → P s → P (m s).1

pub Keeps-at : {S A : Type 0} (P : S → Type 0) (m : M S A) → Keeps P m → (s : S) → P s → P (m s).1
unfolding Keeps
Keeps-at P m k s h = k s h

pub Keeps-get : {S : Type 0} (P : S → Type 0) → Keeps P get
unfolding Keeps
Keeps-get P s h = h

pub Keeps-bind :
    {S A B : Type 0} (P : S → Type 0) (m : M S A) (f : A → M S B)
    → Keeps P m
    → ((a : A) → Keeps P (f a))
    → Keeps P (m >>= f)
unfolding Keeps
Keeps-bind {S} {A} {B} P m f km kf s h = go (m s) (km s h)
  where
    go : (r : Outcome A × S) → P r.1 → P (after f r).1
    go (ok a, t) p = kf a t p
    go (throws e, t) p = p
    go (fault, t) p = p

pub Keeps-lift : {S A : Type 0} (P : S → Type 0) (r : Outcome A) → Keeps P (lift r)
unfolding Keeps
Keeps-lift P r s h = h

pub Keeps-modify :
    {S : Type 0} (P : S → Type 0) (f : S → S) → ((s : S) → P s → P (f s)) → Keeps P (modify f)
unfolding Keeps
Keeps-modify P f k s h = k s h

pub Keeps-when :
    {S : Type 0} (P : S → Type 0) (b : Bool) (m : M S (Unit {0})) → Keeps P m → Keeps P (when b m)
unfolding Keeps
Keeps-when P true m k s h = k s h
Keeps-when P false m k s h = h

pub Keeps-if :
    {S A : Type 0} (P : S → Type 0) (b : Bool) (m k : M S A)
    → Keeps P m
    → Keeps P k
    → Keeps P (if b then m else k)
Keeps-if P true m k hm hk = hm
Keeps-if P false m k hm hk = hk

pub Keeps-pure : {S A : Type 0} (P : S → Type 0) (a : A) → Keeps P (pure a)
unfolding Keeps
Keeps-pure P a s h = h

-- What holds of the value where a call that changes a state returns.
pub Ensures-after :
    {S A B : Type 0} (P : A → Type 0) (Q : B → Type 0) (m : M S A) (f : A → M S B) (s : S)
    → Ensures P (m s).0
    → ((a : A) (t : S) → P a → Ensures Q (f a t).0)
    → Ensures Q ((m >>= f) s).0
Ensures-after {S} {A} {B} P Q m f s h k = go (m s) h
  where
    go : (r : Outcome A × S) → Ensures P r.0 → Ensures Q (after f r).0
    go (ok a, t) p = k a t p
    go (throws e, t) p = tt
    go (fault, t) p = tt

-- Where `m >>= f` ends well, so do both parts.
pub bind_ok :
    {S A B : Type 0} (m : M S A) (f : A → M S B) (s t : S) (b : B)
    → (m >>= f) s ≡ (ok b, t)
    → (a : A) × (u : S) × (m s ≡ (ok a, u)) × (f a u ≡ (ok b, t))
bind_ok {S} {A} {B} m f s t b h = go (m s) h
  where
    go :
        (r : Outcome A × S)
        → after f r ≡ (ok b, t)
        → (a : A) × (u : S) × (r ≡ (ok a, u)) × (f a u ≡ (ok b, t))
    go (ok a, u) e = (a, u, refl, e)
    go (throws x, u) e = cc
    go (fault, u) e = cc
