-- ===== src/Gtid/Defs.antt =====
-- binlog_pos.h's `gtid_interval_t`, `gtid_set_t`, `gtid_t`, and `Position::addGtid`.
-- A transaction number is an `int64_t`, here an integer that does not overflow.
use libslave.Common.{Bytes, ◌&&◌, if◌then◌else◌, List, [], ◌∷◌, ◌++◌, Option, none, some}
use libslave.Common.Int.{ℤ, inc, dec, ltb_ℤ, leb_ℤ, eqb_ℤ}
use libslave.Common.Maps.{lookup, insert, string_eq}

pub record Interval : Type 0 where
  pub first : ℤ
  pub second : ℤ

abbrev pub GtidSet : Type 0
GtidSet = List (Bytes × List Interval)

abbrev pub Gtid : Type 0
Gtid = Bytes × ℤ

-- How the first loop of `addGtid` leaves the list: by `return`, by `break` with `flag` false, or at
-- the end of the list with `flag` true.
pub data Scan : Type 0 where
  returned : List Interval → Scan
  broke : List Interval → Scan
  ended : List Interval → Scan

abbrev pub keep : Interval → Scan → Scan
keep iv (returned l) = returned (iv ∷ l)
keep iv (broke l) = broke (iv ∷ l)
keep iv (ended l) = ended (iv ∷ l)

abbrev pub single : ℤ → Interval
single n = record { first = n; second = n }

unfoldable pub scan : ℤ → List Interval → Scan
scan n [] = ended []
scan n (iv ∷ rest) =
    let next = keep iv (scan n rest) in
    if leb_ℤ iv.first n && leb_ℤ n iv.second
    then returned (iv ∷ rest)
    else if eqb_ℤ (inc n) iv.first
    then broke (record iv { first = dec iv.first } ∷ rest)
    else if eqb_ℤ n (inc iv.second)
    then broke (record iv { second = inc iv.second } ∷ rest)
    else if ltb_ℤ n iv.first
    then returned (single n ∷ iv ∷ rest)
    else next

-- The second loop: the first two neighbours that touch become one interval.
unfoldable pub merge : List Interval → List Interval
merge [] = []
merge (a ∷ []) = a ∷ []
merge (a ∷ b ∷ rest) =
    let next = a ∷ merge (b ∷ rest) in
    if eqb_ℤ (inc a.second) b.first then record a { second = b.second } ∷ rest else next

abbrev pub finish : ℤ → Scan → List Interval
finish n (returned l) = l
finish n (broke l) = merge l
finish n (ended l) = merge (l ++ (single n ∷ []))

unfoldable pub add_number : ℤ → List Interval → List Interval
add_number n l = finish n (scan n l)

-- A server that the map lacks gets the one interval.
unfoldable pub added : ℤ → Option (List Interval) → List Interval
unfolding add_number
added n none = single n ∷ []
added n (some l) = add_number n l

unfoldable pub add_gtid : Gtid → GtidSet → GtidSet
unfolding added lookup insert
add_gtid (sid, n) s = insert sid (added n (lookup sid s)) s
