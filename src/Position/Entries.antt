-- ===== src/Position/Entries.antt =====
-- One server of a set of GTIDs as text, read back.
use libslave.Common.{
  ℕ, ◌≡◌, refl, ap, sym, arith, Bool, true, false, not, Bytes, List, [], ◌∷◌, ◌++◌, ◌==◌, ◌||◌,
  ◌&&◌, leb, ◌∙◌, ◌≢◌, none,
}
use mathlib.Core.List.{append_assoc, append-nil}
use libslave.Common.Fresh.{lookup-last, insert-middle, insert-new}
use libslave.Common.Maps.{lookup, bytes_eq, bytes_eq_iff, string_eq}
use libslave.Clib.{is_digit}
use libslave.Gtid.Defs.{Interval, GtidSet}
use libslave.Position.Text.{
  show_interval, show_intervals, parse_list, join, push_interval, push_intervals, parse_parts,
  remove_copy,
}
use libslave.Position.Tokens.{
  Every, Every-weaken, Every-append, Every-join, Each, in_run, IsRun, parse_list-join,
  remove_copy-Every,
}
use libslave.Position.Intervals.{
  IsNumbered, in_interval, parse_interval-show_interval, show_interval-in_interval,
}

-- A hexadecimal digit.
abbrev pub is_hex : ℕ → Bool
is_hex c = is_digit c || ((leb b'A' c && leb c b'F') || (leb b'a' c && leb c b'f'))

abbrev pub IsEntry : Bytes × List Interval → Type 0
IsEntry (sid, l) = Every is_hex sid × ((sid ≢ []) × ((l ≢ []) × Each IsNumbered l))

push_intervals-cons :
    (sid : Bytes) (iv : Interval) (more : List Interval) (s : GtidSet)
    → IsNumbered iv
    → push_intervals sid (show_intervals (iv ∷ more)) s
      ≡ push_intervals sid (show_intervals more) (push_interval sid iv s)
unfolding push_intervals show_intervals
push_intervals-cons sid iv more s n =
    ap (λ x. push_intervals sid (show_intervals more) (push_interval sid x s))
      (parse_interval-show_interval iv n)

module _ (sid : Bytes) (front : GtidSet) (new : lookup sid front ≡ none) where
  push_interval-last :
      (l : List Interval) (iv : Interval)
      → push_interval sid iv (front ++ ((sid, l) ∷ [])) ≡ front ++ ((sid, l ++ (iv ∷ [])) ∷ [])
  unfolding push_interval
  push_interval-last l iv =
      let same : bytes_eq sid sid ≡ true = (bytes_eq_iff sid sid).1 refl in
      rw (lookup-last sid sid l front new, same) (insert-middle sid l (l ++ (iv ∷ [])) front [] new)

  push_intervals-last :
      (l more : List Interval)
      → Each IsNumbered more
      → push_intervals sid (show_intervals more) (front ++ ((sid, l) ∷ []))
        ≡ front ++ ((sid, l ++ more) ∷ [])
  unfolding push_intervals show_intervals
  push_intervals-last l [] h = ap (λ x. front ++ ((sid, x) ∷ [])) (sym (append-nil l))
  push_intervals-last l (iv ∷ more) (n, h) =
      push_intervals-cons sid iv more (front ++ ((sid, l) ∷ [])) n
      ∙ (ap (push_intervals sid (show_intervals more)) (push_interval-last l iv)
          ∙ (push_intervals-last (l ++ (iv ∷ [])) more h
              ∙ ap (λ x. front ++ ((sid, x) ∷ [])) (append_assoc l (iv ∷ []) more)))

  push_interval-new : (iv : Interval) → push_interval sid iv front ≡ front ++ ((sid, iv ∷ []) ∷ [])
  unfolding push_interval
  push_interval-new iv = rw new (insert-new sid (iv ∷ []) front new)

  push_intervals-new :
      (l : List Interval)
      → l ≢ []
      → Each IsNumbered l
      → push_intervals sid (show_intervals l) front ≡ front ++ ((sid, l) ∷ [])
  push_intervals-new [] filled h = absurd (filled refl)
  push_intervals-new (iv ∷ l) filled (n, h) =
      push_intervals-cons sid iv l front n
      ∙ (ap (push_intervals sid (show_intervals l)) (push_interval-new iv)
          ∙ push_intervals-last (iv ∷ []) l h)

  pub parse_parts-entry :
      (l : List Interval)
      → IsEntry (sid, l)
      → parse_parts (sid ∷ show_intervals l) front ≡ front ++ ((sid, l) ∷ [])
  unfolding parse_parts
  parse_parts-entry l (hex, (named, (filled, h))) =
      let whole : remove_copy (λ c. c == b'-') sid ≡ sid =
        remove_copy-Every (λ c. c == b'-') sid
          (Every-weaken is_hex (λ c. not (c == b'-')) sid (λ c d. ground arith) hex) in
      rw whole (push_intervals-new l filled h)

show_intervals-IsRun :
    (l : List Interval) → Each IsNumbered l → Each (IsRun b':') (show_intervals l)
unfolding show_intervals
show_intervals-IsRun [] h = tt
show_intervals-IsRun (iv ∷ l) (n, h) =
    let (all, filled) = show_interval-in_interval iv n in
    (
      (Every-weaken in_interval (in_run b':') (show_interval iv) (λ c d. ground arith) all, filled),
      show_intervals-IsRun l h,
    )

abbrev pub show_entry : Bytes × List Interval → Bytes
show_entry (sid, l) = sid ++ (b':' ∷ join b':' (show_intervals l))

in_list-hex : (delim : ℕ) → is_hex delim ≡ false → (c : ℕ) → is_hex c ≡ true → in_run delim c ≡ true
in_list-hex delim other c hex = ground arith

pub parse_list-entry :
    (sid : Bytes) (l : List Interval)
    → IsEntry (sid, l)
    → parse_list b':' [] (show_entry (sid, l)) ≡ sid ∷ show_intervals l
unfolding show_intervals
parse_list-entry sid [] (hex, (named, (filled, h))) = absurd (filled refl)
parse_list-entry sid (iv ∷ l) (hex, (named, (filled, h))) =
    parse_list-join b':' (sid ∷ show_intervals (iv ∷ l)) refl (
      (Every-weaken is_hex (in_run b':') sid (in_list-hex b':' refl) hex, named),
      show_intervals-IsRun (iv ∷ l) h,
    )

-- The characters that `parseGtid` does not remove.
abbrev pub in_text : ℕ → Bool
in_text c = not (c == b' ' || c == 10)

-- The characters of an entry.
abbrev pub in_entry : ℕ → Bool
in_entry c = is_hex c || (c == b'-' || c == b':')

pub show_entry-in_entry :
    (entry : Bytes × List Interval) → IsEntry entry → Every in_entry (show_entry entry)
unfolding show_intervals
show_entry-in_entry (sid, l) (hex, (named, (filled, h))) =
    Every-append in_entry sid _ (Every-weaken is_hex in_entry sid (λ c d. ground arith) hex)
      (refl, Every-join in_entry b':' (show_intervals l) refl (each l h))
  where
    each : (l : List Interval) → Each IsNumbered l → Each (Every in_entry) (show_intervals l)
    each [] h = tt
    each (iv ∷ l) (n, h) = (
      Every-weaken in_interval in_entry (show_interval iv) (λ c d. ground arith)
          (show_interval-in_interval iv n).0,
      each l h,
    )
