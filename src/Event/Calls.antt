-- ===== src/Event/Calls.antt =====
-- Calls that touch no memory outside the packet, and how they compose.
use libslave.Common.{
  ◌≡◌, refl, Bool, true, false, Error, Outcome, ok, throws, fault, if◌then◌else◌, throw_if,
}
use libslave.Common.{◌>>=◌ as bind_outcome}
use libslave.Common.Effects.{M, ◌>>=◌, after, pure, when}
use libslave.Event.Read.{ReadState, Tick, note}

-- The call returns a value with the property, or throws: it touches no memory outside the packet.
abbrev pub Safe {ℓ} : {A : Type ℓ} → (A → Type 0) → Outcome A → Type 0
Safe P (ok a) = P a
Safe P (throws e) = Unit {0}
Safe P fault = ⊥

abbrev pub Anything {ℓ} : {A : Type ℓ} → A → Type 0
Anything a = Unit {0}

pub Safe-bind {ℓ κ} :
    {A : Type ℓ} {B : Type κ} (P : A → Type 0) (Q : B → Type 0) (m : Outcome A) (f : A → Outcome B)
    → Safe P m
    → ((a : A) → P a → Safe Q (f a))
    → Safe Q (bind_outcome m f)
Safe-bind P Q (ok a) f h k = k a h
Safe-bind P Q (throws e) f h k = tt
Safe-bind P Q fault f h k = elim h [ ]

pub Safe-after :
    {S A B : Type 0} (P : A → Type 0) (Q : B → Type 0) (r : Outcome A × S) (f : A → M S B)
    → Safe P r.0
    → ((a : A) (t : S) → P a → Safe Q (f a t).0)
    → Safe Q (after f r).0
Safe-after P Q (ok a, t) f h k = k a t h
Safe-after P Q (throws e, t) f h k = tt
Safe-after P Q (fault, t) f h k = elim h [ ]

-- A test that did not throw was false.
pub throw_if-Safe : (b : Bool) (e : Error) → Safe (λ _. b ≡ false) (throw_if b e)
throw_if-Safe true e = tt
throw_if-Safe false e = refl

pub either_way : (b : Bool) (e : Error) → Safe Anything (throw_if b e)
either_way true e = tt
either_way false e = tt

pub Safe-throw_if {ℓ} :
    {A : Type ℓ} (P : A → Type 0) (b : Bool) (e : Error) (r : Outcome A)
    → Safe P r
    → Safe P (bind_outcome (throw_if b e) (λ _. r))
Safe-throw_if P true e r h = tt
Safe-throw_if P false e r h = h

pub Safe-when :
    {S : Type 0} (b : Bool) (m : M S (Unit {0})) (s : S)
    → Safe Anything (m s).0
    → Safe Anything (when b m s).0
Safe-when true m s h = h
Safe-when false m s h = tt

-- Safe from every state.
unfoldable pub AlwaysSafe : {S A : Type 0} → M S A → Type 0
AlwaysSafe {S} m = (s : S) → Safe Anything (m s).0

pub AlwaysSafe-if :
    {S A : Type 0} (b : Bool) (m k : M S A)
    → AlwaysSafe m
    → AlwaysSafe k
    → AlwaysSafe (if b then m else k)
AlwaysSafe-if true m k h h' = h
AlwaysSafe-if false m k h h' = h'

pub AlwaysSafe-pure : (b : Bool) → AlwaysSafe {S = ReadState} (pure b)
unfolding AlwaysSafe
AlwaysSafe-pure b s = tt

pub note-Safe :
    (event_stat : Bool) (t : Tick) (s : ReadState) → Safe Anything (note event_stat t s).0
unfolding note
note-Safe true t s = tt
note-Safe false t s = tt

pub note_and-Safe :
    (event_stat : Bool) (t : Tick) (b : Bool) → AlwaysSafe (note event_stat t >>= (λ _. pure b))
unfolding note AlwaysSafe
note_and-Safe true t b s = tt
note_and-Safe false t b s = tt
