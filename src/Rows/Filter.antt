-- ===== src/Rows/Filter.antt =====
-- table.h's `set_column_filter`, and what `fill_row` reads of it.
use libslave.Common.{
  ℕ, zero, suc, ◌+◌, ◌/◌, ◌<◌, ◌≡◌, ◌≢◌, refl, ap, sym, ◌∙◌, arith, Bool, true, false, ◌||◌, ◌==◌,
  ==_iff, Bytes, IsByte, All, List, [], ◌∷◌, Option, some, none, length, get_elem?, set, replicate,
  ok, Bool-cases, Option-cases, inl, inr,
}
use libslave.Common.Maps.{bytes_eq, bytes_eq_iff}
use libslave.Field.Defs.{Field}
use libslave.Table.Defs.{Table, index_of, mark, mark_all, set_column_filter}
use libslave.Table.Bits.{}
use libslave.Rows.Defs.{bit_at, passes_filter}
use libslave.Rows.Marks.{bit_at-mark, mark-IsByte, bit_at-clear, zeros-IsByte}

-- What the names ask for: a column whose name is among them.
unfoldable pub mentions : Bytes → List Bytes → Bool
mentions name [] = false
mentions name (other ∷ names) = bytes_eq other name || mentions name names

-- A name that is found stands where it is found.
pub index_of-found :
    (name : Bytes) (fields : List Field) (j : ℕ)
    → index_of name fields ≡ some j
    → (f : Field) × (get_elem? fields j ≡ some f) × (f.field_name ≡ name)
unfolding index_of
index_of-found name [] j h = cc
index_of-found name (f ∷ fields) j h = elim (Bool-cases (bytes_eq f.field_name name)) [
  | inl e ↦ front (rw e at h) e
  | inr e ↦ elim (Option-cases (index_of name fields)) [
    | inl n ↦ absurd (lost (rw (e, n) at h))
    | inr (m, e') ↦ behind m (index_of-found name fields m e') (rw (e, e') at h)
  ]
]
  where
    Found : ℕ → Type 0
    Found k = (g : Field) × (get_elem? (f ∷ fields) k ≡ some g) × (g.field_name ≡ name)

    front : some 0 ≡ some j → bytes_eq f.field_name name ≡ true → Found j
    front q e =
        let zero_is : 0 ≡ j = cc in rw (← zero_is) (f, refl, (bytes_eq_iff f.field_name name).0 e)

    lost : ◌≡◌ {A = Option ℕ} none (some j) → ⊥
    lost q = cc

    behind :
        (m : ℕ)
        → ((g : Field) × (get_elem? fields m ≡ some g) × (g.field_name ≡ name))
        → some (suc m) ≡ some j
        → Found j
    behind m (g, at, named) q = let suc_is : suc m ≡ j = cc in rw (← suc_is) (g, at, named)

pub get_elem?-lt {ℓ} :
    {A : Type ℓ} (xs : List A) (j : ℕ) {x : A} → get_elem? xs j ≡ some x → j < length xs
get_elem?-lt [] j h = cc
get_elem?-lt (x ∷ xs) zero h = omega arith
get_elem?-lt (x ∷ xs) (suc j) h = omega (arith, get_elem?-lt xs j h)

or_false : (a : Bool) → (a || false) ≡ a
or_false true = refl
or_false false = refl

not_same : (j i : ℕ) → j ≡ i → (j == i) ≡ false → ⊥
not_same j i e h = ground arith

or_swap : (a m x : Bool) → (m || (a || x)) ≡ ((a || m) || x)
or_swap true true x = refl
or_swap true false x = refl
or_swap false m x = refl

pub mark_all-missed :
    (fields : List Field) (k : ℕ) (name : Bytes) (names : List Bytes) (b : Bytes)
    (positions : List ℕ)
    → index_of name fields ≡ none
    → mark_all fields k (name ∷ names) (b, positions) ≡ mark_all fields (suc k) names (b, positions)
unfolding mark_all
mark_all-missed fields k name names b positions n = rw (n, mark_all)

pub mark_all-found :
    (fields : List Field) (k : ℕ) (name : Bytes) (names : List Bytes) (b : Bytes)
    (positions : List ℕ) (index : ℕ)
    → index_of name fields ≡ some index
    → mark_all fields k (name ∷ names) (b, positions)
      ≡ mark_all fields (suc k) names (mark index b, set positions index k)
unfolding mark_all
mark_all-found fields k name names b positions index n = rw (n, mark_all)

module _ (fields : List Field) (f : Field) (i : ℕ) (column : get_elem? fields i ≡ some f)
    (first : index_of f.field_name fields ≡ some i) where
  -- A name is found at column i just where it is this column's.
  pub found-here :
      (name : Bytes) (j : ℕ) → index_of name fields ≡ some j → (j == i) ≡ bytes_eq name f.field_name
  found-here name j h =
      let (g, at, named) = index_of-found name fields j h in
      elim (Bool-cases (j == i)) [
        | inl e ↦
            let place : j ≡ i = (==_iff j i).0 e in
            let same : g ≡ f = cc (at, column, ap (get_elem? fields) place) in
            rw e
              (sym ((bytes_eq_iff name f.field_name).1 (sym named ∙ ap (λ h. h.field_name) same)))
        | inr e ↦ elim (Bool-cases (bytes_eq name f.field_name)) [
          | inl q ↦
              let again : index_of name fields ≡ some i =
                ap (λ n. index_of n fields) ((bytes_eq_iff name f.field_name).0 q) ∙ first in
              let place : j ≡ i = cc (h, again) in absurd (not_same j i place e)
          | inr q ↦ rw (e, q) refl
        ]
      ]

  pub missed : (name : Bytes) → index_of name fields ≡ none → bytes_eq name f.field_name ≡ false
  missed name h = elim (Bool-cases (bytes_eq name f.field_name)) [
    | inl q ↦
        let again : index_of name fields ≡ some i =
          ap (λ n. index_of n fields) ((bytes_eq_iff name f.field_name).0 q) ∙ first in
        cc (h, again)
    | inr q ↦ q
  ]

  -- The loop over the names sets the bit of the column where one of them is its name.
  mark_all-mentions :
      (k : ℕ) (names : List Bytes) (b : Bytes) (positions : List ℕ) (x : Bool)
      → All IsByte b
      → ((j : ℕ) → j < length fields → (y : Bool) × (bit_at b j ≡ ok y))
      → bit_at b i ≡ ok x
      → bit_at (mark_all fields k names (b, positions)).0 i ≡ ok (mentions f.field_name names || x)
  unfolding mark_all mentions
  mark_all-mentions k [] b positions x bytes long e = e
  mark_all-mentions k (name ∷ names) b positions x bytes long e =
      elim (Option-cases (index_of name fields)) [
        | inl n ↦ rw (mark_all-missed fields k name names b positions n) (
            mark_all-mentions (suc k) names b positions x bytes long e
            ∙ ap (λ a. ok ((a || mentions f.field_name names) || x)) (sym (missed name n)))
        | inr (index, n) ↦
            let (g, at, _) = index_of-found name fields index n in
            let (y, there) = long index (get_elem?-lt fields index at) in
            rw (mark_all-found fields k name names b positions index n) (
              mark_all-mentions (suc k) names (mark index b) (set positions index k)
                (index == i || x) (mark-IsByte b index bytes)
                (λ j lt.
                  let (z, at_j) = long j lt in
                  (index == j || z, bit_at-mark b index j z y bytes there at_j))
                (bit_at-mark b index i x y bytes there e)
              ∙ ap ok (or_swap (index == i) (mentions f.field_name names) x)
              ∙ ap (λ a. ok ((a || mentions f.field_name names) || x)) (found-here name index n))
      ]

pub no_bit : (i : ℕ) (x : Bool) → bit_at [] i ≡ ok x → ⊥
unfolding bit_at
no_bit i x h = cc

-- A filter that is not empty is read at the column's bit.
pub passes_filter-bit :
    (t : Table) (i : ℕ) (x : Bool) → bit_at t.column_filter i ≡ ok x → passes_filter t i ≡ ok x
passes_filter-bit t i x h = go t.column_filter h
  where
    go :
        (cf : Bytes) → bit_at cf i ≡ ok x → passes_filter (record t { column_filter = cf }) i ≡ ok x
    go [] e = absurd (no_bit i x e)
    go (b ∷ cf) e = unfold passes_filter in e

-- The column's bit says whether its name is in the filter.
pub column_filter-mentions :
    (names : List Bytes) (t : Table) (i : ℕ) (f : Field)
    → names ≢ []
    → get_elem? t.fields i ≡ some f
    → index_of f.field_name t.fields ≡ some i
    → bit_at (set_column_filter names t).column_filter i ≡ ok (mentions f.field_name names)
unfolding set_column_filter
column_filter-mentions [] t i f some_names column first = absurd (some_names refl)
column_filter-mentions (name ∷ names) t i f some_names column first =
    mark_all-mentions t.fields f i column first 0 (name ∷ names)
      (replicate ((length t.fields + 7) / 8) 0) _ false (zeros-IsByte ((length t.fields + 7) / 8))
      (λ j lt. (false, bit_at-clear (length t.fields) j lt))
      (bit_at-clear (length t.fields) i (get_elem?-lt t.fields i column))
    ∙ ap ok (or_false (mentions f.field_name (name ∷ names)))
