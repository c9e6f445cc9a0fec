-- ===== src/Slave/Missed.antt =====
-- Queries that `checkAlterOrCreateQuery` does not take, for the `.` of its expression.
use libslave.Common.{
  ℕ, ◌≡◌, refl, ap, ◌∙◌, ◌≢◌, arith, true, false, Bytes, [], ◌∷◌, ◌++◌, none, codes, ◌==◌,
}
use libslave.Position.Tokens.{Every}
use libslave.Slave.Query.{
  first_of, Then, run_regex, before, whole, regex_match, is_word, is_any, is_other, one_line,
  or_none, query_regex, database, table, behind_name, seq, at_end, check_alter_or_create_query,
}
use libslave.Slave.Altered.{
  run_many-fails, word-tests, other-tests, Stops-Ends, prefix, database-fails, one_line-append,
  one_line-Every,
}

-- The carriage return.
abbrev return : ℕ
return = 13

past_return-fails :
    (t more held : Bytes) → run_regex at_end whole (t ++ (return ∷ more)) held ≡ none
unfolding run_regex
past_return-fails [] more held = refl
past_return-fails (c ∷ t) more held = refl

module _ (d : ℕ) (mid more : Bytes) (other : is_other d ≡ true) (line : Every is_any mid) where
  behind_name-fails :
      (t held : Bytes)
      → Every is_word t
      → run_regex behind_name whole (t ++ (d ∷ mid ++ (return ∷ more))) held ≡ none
  unfolding run_regex
  behind_name-fails [] held all =
      let (word, (tick, dot)) = other-tests d other in
      let rest =
        run_many-fails is_any (run_regex at_end whole) mid (return ∷ more) held line refl
          (λ t _. past_return-fails t more held) in
      rw (tick, word, dot, rest)
  behind_name-fails (c ∷ t) held (w, all) =
      let (space, (tick, dot)) = word-tests c w in rw (tick, w)

  table-fails :
      (c : ℕ) (s : Bytes)
      → is_word c ≡ true
      → Every is_word s
      → run_regex table whole (c ∷ s ++ (d ∷ mid ++ (return ∷ more))) [] ≡ none
  unfolding run_regex
  table-fails c s w all =
      let rest : Bytes = d ∷ mid ++ (return ∷ more) in
      let (space, (tick, dot)) = word-tests c w in
      let goes_on : Then =
        λ left _. run_regex behind_name whole left (before (c ∷ s ++ rest) left) in
      let lost =
        run_many-fails is_word goes_on s rest [] all (Stops-Ends rest other)
          (λ t words. behind_name-fails t (before (c ∷ s ++ rest) (t ++ rest)) words) in
      rw (tick, w, lost)

  plain_name-fails :
      (c : ℕ) (s : Bytes)
      → is_word c ≡ true
      → Every is_word s
      → run_regex (seq database table) whole (c ∷ s ++ (d ∷ mid ++ (return ∷ more))) [] ≡ none
  unfolding run_regex
  plain_name-fails c s w all =
      database-fails (run_regex table whole) c s (d ∷ mid ++ (return ∷ more)) [] w all other
      ∙ table-fails c s w all

-- A query "alter table" that has a carriage return behind the character that ends the table's name
-- is not taken for one: the table is not read again. The name is of word characters, one at least,
-- and no line ends between the two.
pub check_alter_or_create_query-return :
    (name : Bytes) (d : ℕ) (mid more : Bytes)
    → name ≢ []
    → Every is_word name
    → is_other d ≡ true
    → (d == 10) ≡ false
    → Every is_any mid
    → check_alter_or_create_query (codes "alter table " ++ (name ++ (d ∷ mid ++ (13 ∷ more)))) ≡ []
unfolding check_alter_or_create_query
check_alter_or_create_query-return [] d mid more filled all other feed line = absurd (filled refl)
check_alter_or_create_query-return (c ∷ s) d mid more filled (w, all) other feed line =
    let (space, _) = word-tests c w in
    let tail : one_line (d ∷ mid ++ (return ∷ more)) ≡ d ∷ mid ++ (return ∷ one_line more) =
      rw feed (
        ap (λ l. d ∷ l)
          (one_line-append mid (return ∷ more)
            ∙ ap (λ l. l ++ (return ∷ one_line more))
                (one_line-Every is_any mid (λ x q. ground arith) line))) in
    let same =
      one_line-append (c ∷ s) (d ∷ mid ++ (return ∷ more))
      ∙ (ap (λ l. l ++ one_line (d ∷ mid ++ (return ∷ more)))
            (one_line-Every is_word (c ∷ s) (λ x q. ground arith) (w, all))
          ∙ ap (λ l. c ∷ s ++ l) tail) in
    ap (λ l. or_none (regex_match query_regex (codes "alter table " ++ l))) same
    ∙ ap or_none (
        prefix c (s ++ (d ∷ mid ++ (return ∷ one_line more))) space
        ∙ ap (λ r. first_of r none) (plain_name-fails d mid (one_line more) other line c s w all))
