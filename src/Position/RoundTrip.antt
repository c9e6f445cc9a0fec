-- ===== src/Position/RoundTrip.antt =====
-- A set of GTIDs as text, read back by `parseGtid`.
use libslave.Common.{
  ◌≡◌, refl, ap, sym, arith, not, Bytes, List, [], ◌∷◌, ◌++◌, ◌==◌, ◌||◌, ◌∙◌, ◌≢◌, none,
}
use mathlib.Core.List.{append_assoc, append-nil}
use libslave.Common.Fresh.{Apart, Apart-nil, Apart-snoc}
use libslave.Common.Maps.{lookup, string_eq}
use libslave.Gtid.Defs.{Interval, GtidSet}
use libslave.Position.Text.{
  show_entries, gtids_str, parse_list, parse_parts, parse_tokens, parse_gtid,
}
use libslave.Position.Defs.{Position}
use libslave.Position.Tokens.{
  Every, Every-weaken, Every-join, Each, in_run, IsRun, parse_list-join, remove_copy-Every,
}
use libslave.Position.Intervals.{append-filled}
use libslave.Position.Entries.{
  IsEntry, parse_parts-entry, show_entry, parse_list-entry, in_text, in_entry, show_entry-in_entry,
}

-- No server stands twice.
abbrev pub IsMap : GtidSet → Type 0
unfolding lookup
IsMap [] = Unit {0}
IsMap ((sid, l) ∷ s) = (lookup sid s ≡ none) × IsMap s

parse_tokens-show_entries :
    (front s : GtidSet)
    → Apart front s
    → IsMap s
    → Each IsEntry s
    → parse_tokens (show_entries s) front ≡ front ++ s
unfolding parse_tokens show_entries lookup
parse_tokens-show_entries front [] apart map h = sym (append-nil front)
parse_tokens-show_entries front ((sid, l) ∷ s) (new, apart) (once, map) (entry, h) =
    ap (λ x. parse_tokens (show_entries s) (parse_parts x front)) (parse_list-entry sid l entry)
    ∙ (ap (parse_tokens (show_entries s)) (parse_parts-entry sid front new l entry)
        ∙ (parse_tokens-show_entries (front ++ ((sid, l) ∷ [])) s
              (Apart-snoc sid l front s once apart) map h
            ∙ append_assoc front ((sid, l) ∷ []) s))

show_entries-IsRun :
    (s : GtidSet)
    → Each IsEntry s
    → Each (IsRun b',') (show_entries s) × Each (Every in_text) (show_entries s)
unfolding show_entries
show_entries-IsRun [] h = (tt, tt)
show_entries-IsRun ((sid, l) ∷ s) (entry, h) =
    let all = show_entry-in_entry (sid, l) entry in
    let (runs, texts) = show_entries-IsRun s h in
    (
      (
        (
          Every-weaken in_entry (in_run b',') (show_entry (sid, l)) (λ c d. ground arith) all,
          append-filled sid _ entry.1.0,
        ),
        runs,
      ),
      (Every-weaken in_entry in_text (show_entry (sid, l)) (λ c d. ground arith) all, texts),
    )

parse_gtid-filled :
    (s : Bytes) (p : Position) (tokens : List Bytes)
    → s ≢ []
    → Every in_text s
    → parse_list b',' [] s ≡ tokens
    → parse_gtid s p ≡ record p { gtid_executed = parse_tokens tokens [] }
unfolding parse_gtid
parse_gtid-filled [] p tokens filled h e = absurd (filled refl)
parse_gtid-filled (c ∷ s) p tokens filled h e =
    ap (λ l. record p { gtid_executed = parse_tokens l [] })
      (ap (parse_list b',' []) (
          remove_copy-Every (λ d. d == b' ' || d == 10) (c ∷ s)
            (Every-weaken in_text (λ d. not (d == b' ' || d == 10)) (c ∷ s) (λ c d. ground arith)
              h))
        ∙ e)

gtids_str-filled : (s : GtidSet) → s ≢ [] → Each IsEntry s → gtids_str s ≢ []
unfolding gtids_str show_entries
gtids_str-filled [] filled h = absurd (filled refl)
gtids_str-filled ((sid, l) ∷ []) filled (entry, h) = append-filled sid _ entry.1.0
gtids_str-filled ((sid, l) ∷ e ∷ s) filled (entry, h) =
    append-filled (show_entry (sid, l)) _ (append-filled sid _ entry.1.0)

-- `parseGtid` reads back the entries that `str` writes, whatever position it starts from: where the
-- set is not empty, no server stands twice, the ids are of hexadecimal digits, each server has an
-- interval, and the numbers are those of an `int64_t` from 0 on.
pub parse_gtid-gtids_str :
    (s : GtidSet) (p : Position)
    → s ≢ []
    → IsMap s
    → Each IsEntry s
    → parse_gtid (gtids_str s) p ≡ record p { gtid_executed = s }
unfolding gtids_str
parse_gtid-gtids_str s p filled map h =
    let (runs, texts) = show_entries-IsRun s h in
    parse_gtid-filled (gtids_str s) p (show_entries s) (gtids_str-filled s filled h)
      (Every-join in_text b',' (show_entries s) refl texts)
      (parse_list-join b',' (show_entries s) refl runs)
    ∙ ap (λ x. record p { gtid_executed = x })
        (parse_tokens-show_entries [] s (Apart-nil (List Interval) s) map h)
