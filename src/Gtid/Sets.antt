-- ===== src/Gtid/Sets.antt =====
-- `Position::addGtid` on the whole map of servers: a set of pairs of a server and a number.
use libslave.Common.{
  ◌≡◌, refl, ap, sym, ◌⊎◌, inl, inr, ◌↔◌, Bytes, Bool, true, false, List, [], Option, none, some,
  if◌then◌else◌, Bool-cases,
}
use libslave.Common.Int.{ℤ}
use libslave.Common.Maps.{lookup, lookup-insert, string_eq, bytes_eq, bytes_eq_iff}
use libslave.Gtid.Defs.{Interval, GtidSet, Gtid, added, scan, merge, add_number, add_gtid}
use libslave.Gtid.Canon.{IsCanonical, add_number-IsCanonical}
use libslave.Gtid.Members.{In, In-add_number}

abbrev or_empty : Option (List Interval) → List Interval
or_empty none = []
or_empty (some l) = l

-- A server's intervals; one that the map lacks has none.
abbrev pub intervals : Bytes → GtidSet → List Interval
intervals sid s = or_empty (lookup sid s)

abbrev pub Has : Gtid → GtidSet → Type 0
Has (sid, n) s = In n (intervals sid s)

abbrev pub IsCanonicalSet : GtidSet → Type 0
IsCanonicalSet s = (sid : Bytes) → IsCanonical (intervals sid s)

added-or_empty : (n : ℤ) (o : Option (List Interval)) → added n o ≡ add_number n (or_empty o)
unfolding added add_number scan merge
added-or_empty n none = refl
added-or_empty n (some l) = refl

intervals-add_gtid :
    (sid other : Bytes) (n : ℤ) (s : GtidSet)
    → intervals other (add_gtid (sid, n) s)
      ≡ (if bytes_eq sid other then add_number n (intervals sid s) else intervals other s)
unfolding add_gtid
intervals-add_gtid sid other n s =
    rw (lookup-insert sid other (added n (lookup sid s)) s)
      (elim (Bool-cases (bytes_eq sid other)) [
        | inl t ↦ rw t (added-or_empty n (lookup sid s))
        | inr f ↦ rw f
      ])

-- Adding a GTID keeps every server's intervals canonical.
pub add_gtid-IsCanonicalSet :
    (g : Gtid) (s : GtidSet) → IsCanonicalSet s → IsCanonicalSet (add_gtid g s)
add_gtid-IsCanonicalSet (sid, n) s c other =
    rw (intervals-add_gtid sid other n s) (elim (Bool-cases (bytes_eq sid other)) [
      | inl t ↦ rw t (add_number-IsCanonical n (intervals sid s) (c sid))
      | inr f ↦ rw f (c other)
    ])

clash : {b : Bool} → b ≡ false → b ≡ true → ⊥
clash f t = cc

-- On canonical intervals `addGtid` is insertion into a set: the GTIDs of the result are the ones
-- before and the new one.
pub Has-add_gtid :
    (g : Gtid) (s : GtidSet)
    → IsCanonicalSet s
    → (h : Gtid) → Has h (add_gtid g s) ↔ (Has h s ⊎ (h ≡ g))
Has-add_gtid (sid, n) s c (other, x) =
    rw (intervals-add_gtid sid other n s) (elim (Bool-cases (bytes_eq sid other)) [
      | inl t ↦ rw t (here ((bytes_eq_iff sid other).0 t))
      | inr f ↦ rw f (there f)
    ])
  where
    here :
        sid ≡ other
        → In x (add_number n (intervals sid s))
          ↔ (In x (intervals other s) ⊎ (◌≡◌ {A = Gtid} (other, x) (sid, n)))
    here e =
        let (to, back) = In-add_number n (intervals sid s) (c sid) x in
        (
          λ i. elim (to i) [ inl j ↦ inl (rw e at j) | inr q ↦ inr (rw (e, q)) ],
          λ i. elim i [ inl j ↦ back (inl (rw e j)) | inr q ↦ back (inr (ap (λ p. p.1) q)) ],
        )

    there :
        bytes_eq sid other ≡ false
        → In x (intervals other s)
          ↔ (In x (intervals other s) ⊎ (◌≡◌ {A = Gtid} (other, x) (sid, n)))
    there f = (
      inl,
      λ i. elim i [
        | inl j ↦ j
        | inr q ↦ absurd (clash f ((bytes_eq_iff sid other).1 (sym (ap (λ p. p.0) q))))
      ],
    )
