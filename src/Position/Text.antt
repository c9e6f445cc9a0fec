-- ===== src/Position/Text.antt =====
-- `Position::str` and `Position::parseGtid`: a set of GTIDs as text, and the lists in that text.
use libslave.Common.{
  ℕ, zero, suc, ◌+◌, ◌/◌, ◌%◌, Bool, not, ◌&&◌, ◌||◌, Bytes, List, [], ◌∷◌, ◌++◌, ltb, ◌==◌,
  if◌then◌else◌, codes, some, none, Option,
}
use libslave.Common.Int.{ℤ, pos, negsuc, eqb_ℤ}
use libslave.Common.Maps.{lookup, insert, string_eq}
use libslave.Clib.{atoi}
use libslave.Gtid.Defs.{Interval, GtidSet}
use libslave.Position.Defs.{Position, is_nil}

-- `std::to_string`: 20 digits are enough for a number of 64 bits.
unfoldable pub show_digits : ℕ → ℕ → Bytes
show_digits zero n = []
show_digits (suc k) n =
    let front = show_digits k (n / 10) in
    if ltb n 10 then (b'0' + n) ∷ [] else front ++ ((b'0' + n % 10) ∷ [])

unfoldable pub to_string : ℤ → Bytes
unfolding show_digits
to_string (pos n) = show_digits 20 n
to_string (negsuc n) = b'-' ∷ show_digits 20 (suc n)

unfoldable pub show_interval : Interval → Bytes
unfolding to_string eqb_ℤ
show_interval iv =
    if eqb_ℤ iv.first iv.second
    then to_string iv.first
    else to_string iv.first ++ (b'-' ∷ to_string iv.second)

abbrev pub join : ℕ → List Bytes → Bytes
join c [] = []
join c (s ∷ []) = s
join c (s ∷ t ∷ rest) = s ++ (c ∷ join c (t ∷ rest))

unfoldable pub show_intervals : List Interval → List Bytes
show_intervals [] = []
show_intervals (iv ∷ l) = show_interval iv ∷ show_intervals l

unfoldable pub show_entries : GtidSet → List Bytes
show_entries [] = []
show_entries ((sid, l) ∷ s) = (sid ++ (b':' ∷ join b':' (show_intervals l))) ∷ show_entries s

-- The entries of `gtid_executed`, as `str` writes them.
unfoldable pub gtids_str : GtidSet → Bytes
gtids_str s = join b',' (show_entries s)

unfoldable pub str : Position → Bytes
unfolding gtids_str to_string
str p =
    b'\''
    ∷ ((if not (is_nil p.log_name) && not (p.log_pos == 0)
          then p.log_name ++ (b':' ∷ to_string (pos p.log_pos) ++ codes ", ")
          else [])
        ++ (codes "GTIDs="
            ++ (if is_nil p.gtid_executed
                then codes "-'"
                else gtids_str p.gtid_executed ++ codes "'")))

abbrev flush : Bytes → List Bytes → List Bytes
flush [] l = l
flush (c ∷ s) l = (c ∷ s) ∷ l

-- `parse_list_f`: the runs between delimiters that are not empty, up to a zero byte. `run` is the
-- part of the current run that is read.
unfoldable pub parse_list : ℕ → Bytes → Bytes → List Bytes
parse_list delim run [] = flush run []
parse_list delim run (c ∷ s) =
    let rest = parse_list delim (if c == delim then [] else run ++ (c ∷ [])) s in
    if c == 0 then flush run [] else if c == delim then flush run rest else rest

abbrev pub remove_copy : (ℕ → Bool) → Bytes → Bytes
remove_copy drops [] = []
remove_copy drops (c ∷ s) = let rest = remove_copy drops s in if drops c then rest else c ∷ rest

-- The numbers of `n`, `n-m`: the first is both ends, each later one is the upper end.
abbrev set_second : Interval → List Bytes → Interval
unfolding atoi
set_second iv [] = iv
set_second iv (x ∷ xs) = set_second (record iv { second = atoi x }) xs

abbrev interval_of : List Bytes → Interval
unfolding atoi
interval_of [] = record { first = pos 0; second = pos 0 }
interval_of (x ∷ xs) = set_second (record { first = atoi x; second = atoi x }) xs

unfoldable pub parse_interval : Bytes → Interval
unfolding atoi parse_list
parse_interval x = interval_of (parse_list b'-' [] x)

-- `gtid_executed[sid].push_back(interval)`
abbrev pub pushed : Interval → Option (List Interval) → List Interval
pushed iv none = iv ∷ []
pushed iv (some l) = l ++ (iv ∷ [])

unfoldable pub push_interval : Bytes → Interval → GtidSet → GtidSet
unfolding lookup insert
push_interval sid iv s = insert sid (pushed iv (lookup sid s)) s

unfoldable pub push_intervals : Bytes → List Bytes → GtidSet → GtidSet
push_intervals sid [] s = s
push_intervals sid (x ∷ xs) s = push_intervals sid xs (push_interval sid (parse_interval x) s)

unfoldable pub parse_parts : List Bytes → GtidSet → GtidSet
parse_parts [] s = s
parse_parts (uuid ∷ xs) s = push_intervals (remove_copy (λ c. c == b'-') uuid) xs s

unfoldable pub parse_tokens : List Bytes → GtidSet → GtidSet
parse_tokens [] s = s
parse_tokens (token ∷ tokens) s = parse_tokens tokens (parse_parts (parse_list b':' [] token) s)

unfoldable pub parse_gtid : Bytes → Position → Position
parse_gtid [] p = p
parse_gtid (c ∷ input) p = record p {
  gtid_executed =
      parse_tokens (parse_list b',' [] (remove_copy (λ d. d == b' ' || d == 10) (c ∷ input))) [];
}
