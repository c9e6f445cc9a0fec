-- ===== src/Common/Fresh.antt =====
-- A key that a `std::map` lacks, and the entry at the end of the map.
use mathlib.Core.Path.{◌≡◌, refl, ap}
use mathlib.Core.Logic.{inl, inr}
use mathlib.Core.Bool.{false}
use mathlib.Core.Option.{none, some}
use mathlib.Core.List.{List, [], ◌∷◌, ◌++◌}
use native.Mathlib.Omega.{arith}
use libslave.Common.Tests.{if◌then◌else◌, Bool-cases}
use libslave.Common.Maps.{Eq, lookup, insert}

module _ {ℓ κ} {K : Type ℓ} {V : Type κ} ⦃e : Eq K⦄ where
  pub lookup-cons_none :
      (k j : K) (v : V) (m : List (K × V))
      → lookup k ((j, v) ∷ m) ≡ none
      → (e.eqb j k ≡ false) × (lookup k m ≡ none)
  unfolding lookup
  lookup-cons_none k j v m h = elim (Bool-cases (e.eqb j k)) [
    | inl t ↦ absurd (clash (rw t at h))
    | inr f ↦ (f, rw f at h)
  ]
    where
      clash : some v ≡ none → ⊥
      clash q = cc

  pub lookup-last :
      (k j : K) (v : V) (m : List (K × V))
      → lookup k m ≡ none
      → lookup k (m ++ ((j, v) ∷ [])) ≡ (if e.eqb j k then some v else none)
  unfolding lookup
  lookup-last k j v [] h = refl
  lookup-last k j v ((i, w) ∷ m) h =
      let (other, rest) = lookup-cons_none k i w m h in rw other (lookup-last k j v m rest)

  pub lookup-middle :
      (k : K) (v : V) (m rest : List (K × V))
      → lookup k m ≡ none
      → lookup k (m ++ ((k, v) ∷ rest)) ≡ some v
  unfolding lookup
  lookup-middle k v [] rest h = let same = (e.eqb_iff k k).1 refl in rw same
  lookup-middle k v ((i, x) ∷ m) rest h =
      let (other, new) = lookup-cons_none k i x m h in rw other (lookup-middle k v m rest new)

  pub insert-middle :
      (k : K) (v w : V) (m rest : List (K × V))
      → lookup k m ≡ none
      → insert k w (m ++ ((k, v) ∷ rest)) ≡ m ++ ((k, w) ∷ rest)
  unfolding lookup insert
  insert-middle k v w [] rest h = let same = (e.eqb_iff k k).1 refl in rw same
  insert-middle k v w ((i, x) ∷ m) rest h =
      let (other, new) = lookup-cons_none k i x m h in
      rw other (ap (λ l. (i, x) ∷ l) (insert-middle k v w m rest new))

  pub insert-new :
      (k : K) (v : V) (m : List (K × V)) → lookup k m ≡ none → insert k v m ≡ m ++ ((k, v) ∷ [])
  unfolding lookup insert
  insert-new k v [] h = refl
  insert-new k v ((i, x) ∷ m) h =
      let (other, rest) = lookup-cons_none k i x m h in
      rw other (ap (λ l. (i, x) ∷ l) (insert-new k v m rest))

module _ {ℓ κ μ} {K : Type ℓ} {V : Type κ} {W : Type μ} ⦃e : Eq K⦄ where
  -- No key of s is one of m.
  abbrev pub Apart : List (K × V) → List (K × W) → Type κ
  unfolding lookup
  Apart m [] = Unit {κ}
  Apart m ((k, w) ∷ s) = (lookup k m ≡ none) × Apart m s

  pub Apart-snoc :
      (k : K) (v : V) (m : List (K × V)) (s : List (K × W))
      → lookup k s ≡ none
      → Apart m s
      → Apart (m ++ ((k, v) ∷ [])) s
  unfolding lookup
  Apart-snoc k v m [] new apart = tt
  Apart-snoc k v m ((j, w) ∷ s) new (h, apart) =
      let (differs, rest) = lookup-cons_none k j w s new in
      let apart_key : e.eqb k j ≡ false = ground (arith, e.eqb_iff k j, e.eqb_iff j k) in
      (rw (lookup-last j k v m h, apart_key), Apart-snoc k v m s rest apart)

pub Apart-nil {ℓ κ μ} :
    {K : Type ℓ} (V : Type κ) {W : Type μ} ⦃e : Eq K⦄ (s : List (K × W)) → Apart {V = V} [] s
unfolding lookup
Apart-nil V [] = tt
Apart-nil V ((k, w) ∷ s) = (refl, Apart-nil V s)
