-- ===== src/Gtid/Examples.antt =====
-- `addGtid` on a set of two servers.
use libslave.Common.{◌≡◌, refl, ◌⊎◌, ◌↔◌, arith, inl, inr, List, [], ◌∷◌, codes, Bool-cases}
use libslave.Common.Int.{ℤ, pos, leb_ℤ, eqb_ℤ, ltb_ℤ, inc, dec, inc_parts}
use libslave.Common.Maps.{lookup, string_eq, bytes_eq}
use libslave.Gtid.Defs.{Interval, GtidSet, Gtid, scan, merge, add_number, add_gtid}
use libslave.Gtid.Canon.{IsCanonical}
use libslave.Gtid.Sets.{IsCanonicalSet, Has, add_gtid-IsCanonicalSet, Has-add_gtid}

abbrev upto : ℤ → ℤ → Interval
upto a b = record { first = a; second = b }

abbrev two : List Interval
two = upto (pos 1) (pos 5) ∷ upto (pos 7) (pos 9) ∷ []

-- The gap of one number closes.
add_number_gap : add_number (pos 6) two ≡ upto (pos 1) (pos 9) ∷ []
unfolding add_number scan merge leb_ℤ eqb_ℤ ltb_ℤ inc dec
add_number_gap = refl

add_number_far :
    add_number (pos 20) two
    ≡ upto (pos 1) (pos 5) ∷ upto (pos 7) (pos 9) ∷ upto (pos 20) (pos 20) ∷ []
unfolding add_number scan merge leb_ℤ eqb_ℤ ltb_ℤ inc dec
add_number_far = refl

two-IsCanonical : IsCanonical two
two-IsCanonical = (omega arith, omega (arith, inc_parts (pos 5)), (omega arith, tt, tt))

abbrev servers : GtidSet
servers = (codes "aa", two) ∷ (codes "bb", upto (pos 3) (pos 3) ∷ []) ∷ []

servers-IsCanonicalSet : IsCanonicalSet servers
unfolding lookup
servers-IsCanonicalSet sid = elim (Bool-cases (bytes_eq (codes "aa") sid)) [
  | inl e ↦ rw e two-IsCanonical
  | inr e ↦ rw e (elim (Bool-cases (bytes_eq (codes "bb") sid)) [
    | inl e' ↦ rw e' (omega arith, tt, tt)
    | inr e' ↦ rw e' tt
  ])
]

add_gtid-IsCanonicalSet_example : IsCanonicalSet (add_gtid (codes "aa", pos 6) servers)
add_gtid-IsCanonicalSet_example =
    add_gtid-IsCanonicalSet (codes "aa", pos 6) servers servers-IsCanonicalSet

Has-add_gtid_example :
    Has (codes "bb", pos 3) (add_gtid (codes "aa", pos 6) servers)
    ↔ (Has (codes "bb", pos 3) servers ⊎ ◌≡◌ {A = Gtid} (codes "bb", pos 3) (codes "aa", pos 6))
Has-add_gtid_example =
    Has-add_gtid (codes "aa", pos 6) servers servers-IsCanonicalSet (codes "bb", pos 3)
