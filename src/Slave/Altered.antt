-- ===== src/Slave/Altered.antt =====
-- The table that `checkAlterOrCreateQuery` finds.
use libslave.Common.{
  ◌≡◌, refl, ap, ◌∙◌, ◌≢◌, arith, ℕ, Bool, true, false, Bytes, [], ◌∷◌, ◌++◌, some, none, codes,
  ◌==◌, length, take, take-append, length-append, ◌-◌,
}
use mathlib.Core.List.{append-nil}
use libslave.Clib.{is_space}
use libslave.Position.Tokens.{Every}
use libslave.Slave.Query.{
  first_of, Then, run_many, run_regex, before, whole, regex_match, is_word, is_any, is_other,
  one_line, or_none, query_regex, database, table, behind_name, quote, one, at_end, seq,
  check_alter_or_create_query,
}

-- The text is at its end, or its first character fails the test.
abbrev pub Stops : (ℕ → Bool) → Bytes → Type 0
Stops p [] = Unit {0}
Stops p (c ∷ s) = p c ≡ false

-- A run of characters is tried in full first.
run_many-longest :
    (p : ℕ → Bool) (k : Then) (s rest held v : Bytes)
    → Every p s
    → Stops p rest
    → k rest held ≡ some v
    → run_many p k (s ++ rest) held ≡ some v
unfolding run_many
run_many-longest p k [] [] held v all stop e = e
run_many-longest p k [] (c ∷ rest) held v all stop e = rw stop e
run_many-longest p k (c ∷ s) rest held v (q, all) stop e =
    rw (q, run_many-longest p k s rest held v all stop e)

-- Where nothing goes on behind any part of the run, the run fails.
pub run_many-fails :
    (p : ℕ → Bool) (k : Then) (s rest held : Bytes)
    → Every p s
    → Stops p rest
    → ((t : Bytes) → Every p t → k (t ++ rest) held ≡ none)
    → run_many p k (s ++ rest) held ≡ none
unfolding run_many
run_many-fails p k [] [] held all stop fails = fails [] tt
run_many-fails p k [] (c ∷ rest) held all stop fails = rw stop (fails [] tt)
run_many-fails p k (c ∷ s) rest held (q, all) stop fails =
    rw (q, run_many-fails p k s rest held all stop fails, fails (c ∷ s) (q, all))

-- The expression behind a table's name ends the text, or goes on with another character.
abbrev pub Ends : Bytes → Type 0
Ends [] = Unit {0}
Ends (c ∷ s) = is_other c ≡ true

pub prefix :
    (c : ℕ) (s : Bytes)
    → is_space c ≡ false
    → regex_match query_regex (codes "alter table " ++ (c ∷ s))
      ≡ first_of (run_regex (seq database table) whole (c ∷ s) []) none
unfolding regex_match
prefix c s e = rw e

pub word-tests :
    (c : ℕ)
    → is_word c ≡ true
    → (is_space c ≡ false) × (((c == b'`') ≡ false) × ((c == b'.') ≡ false))
word-tests c h = (ground arith, (ground arith, ground arith))

pub other-tests :
    (c : ℕ)
    → is_other c ≡ true
    → (is_word c ≡ false) × (((c == b'`') ≡ false) × ((c == b'.') ≡ false))
other-tests c h = (ground arith, (ground arith, ground arith))

pub Stops-Ends : (rest : Bytes) → Ends rest → Stops is_word rest
Stops-Ends [] ends = tt
Stops-Ends (c ∷ rest) ends = (other-tests c ends).0

dot_fails :
    (k : Then) (t rest held : Bytes)
    → Every is_word t
    → Ends rest
    → run_regex (seq quote (one (λ c. c == b'.'))) k (t ++ rest) held ≡ none
unfolding run_regex
dot_fails k [] [] held all ends = refl
dot_fails k [] (c ∷ rest) held all ends =
    let (word, (tick, dot)) = other-tests c ends in rw (tick, dot)
dot_fails k (c ∷ t) rest held (w, all) ends =
    let (space, (tick, dot)) = word-tests c w in rw (tick, dot)

-- No database stands in front of a name without a point behind it.
pub database-fails :
    (k : Then) (c : ℕ) (s rest held : Bytes)
    → is_word c ≡ true
    → Every is_word s
    → Ends rest
    → run_regex database k (c ∷ s ++ rest) held ≡ k (c ∷ s ++ rest) held
unfolding run_regex
database-fails k c s rest held w all ends =
    let (space, (tick, dot)) = word-tests c w in
    let tail =
      run_many-fails is_word (run_regex (seq quote (one (λ c. c == b'.'))) k) s rest held all
        (Stops-Ends rest ends) (λ t words. dot_fails k t rest held words ends) in
    rw (tick, w, tail)

before-append : (s rest : Bytes) → before (s ++ rest) rest ≡ s
before-append s rest =
    let front : length (s ++ rest) - length rest ≡ length s =
      let both = length-append s rest in omega arith in
    ap (λ n. take n (s ++ rest)) front ∙ take-append s rest

ending :
    (rest held : Bytes)
    → Ends rest
    → Every is_any rest
    → run_regex behind_name whole rest held ≡ some held
unfolding run_regex
ending [] held ends line = refl
ending (c ∷ rest) held ends (any, line) =
    let (word, (tick, dot)) = other-tests c ends in
    let all : run_many is_any (run_regex at_end whole) rest held ≡ some held =
      rw (append-nil rest) at
        (run_many-longest is_any (run_regex at_end whole) rest [] held held line tt refl) in
    rw (tick, word, dot, all)

table-found :
    (c : ℕ) (s rest : Bytes)
    → is_word c ≡ true
    → Every is_word s
    → Ends rest
    → Every is_any rest
    → run_regex table whole (c ∷ s ++ rest) [] ≡ some (c ∷ s)
unfolding run_regex
table-found c s rest w all ends line =
    let (space, (tick, dot)) = word-tests c w in
    let goes_on : Then = λ left _. run_regex behind_name whole left (before (c ∷ s ++ rest) left) in
    let found = run_many-longest is_word goes_on s rest [] (c ∷ s) all (Stops-Ends rest ends) (
      ap (run_regex behind_name whole rest) (before-append (c ∷ s) rest)
      ∙ ending rest (c ∷ s) ends line) in
    rw (tick, w, found)

plain_name :
    (c : ℕ) (s rest : Bytes)
    → is_word c ≡ true
    → Every is_word s
    → Ends rest
    → Every is_any rest
    → run_regex (seq database table) whole (c ∷ s ++ rest) [] ≡ some (c ∷ s)
unfolding run_regex
plain_name c s rest w all ends line =
    database-fails (run_regex table whole) c s rest [] w all ends
    ∙ table-found c s rest w all ends line

pub one_line-Every :
    (p : ℕ → Bool) (s : Bytes)
    → ((c : ℕ) → p c ≡ true → (c == 10) ≡ false)
    → Every p s
    → one_line s ≡ s
one_line-Every p [] h all = refl
one_line-Every p (c ∷ s) h (q, all) = rw (h c q, one_line-Every p s h all)

pub one_line-append : (s t : Bytes) → one_line (s ++ t) ≡ one_line s ++ one_line t
one_line-append [] t = refl
one_line-append (c ∷ s) t = rw (one_line-append s t)

-- `checkAlterOrCreateQuery` finds the table that a query "alter table" names without a database or
-- quotes: where the name is of word characters, one at least, the query ends there or goes on with
-- another character than a point or a back quote, and has no line end behind the name.
pub check_alter_or_create_query-table :
    (name rest : Bytes)
    → name ≢ []
    → Every is_word name
    → Ends rest
    → Every is_any rest
    → check_alter_or_create_query (codes "alter table " ++ (name ++ rest)) ≡ name
unfolding check_alter_or_create_query
check_alter_or_create_query-table [] rest filled words ends line = absurd (filled refl)
check_alter_or_create_query-table (c ∷ s) rest filled (w, words) ends line =
    let (space, _) = word-tests c w in
    let same : one_line (c ∷ s ++ rest) ≡ c ∷ s ++ rest =
      one_line-append (c ∷ s) rest
      ∙ (ap (λ l. l ++ one_line rest)
            (one_line-Every is_word (c ∷ s) (λ d q. ground arith) (w, words))
          ∙ ap (λ l. c ∷ s ++ l) (one_line-Every is_any rest (λ d q. ground arith) line)) in
    ap (λ l. or_none (regex_match query_regex (codes "alter table " ++ l))) same
    ∙ ap or_none (
        prefix c (s ++ rest) space
        ∙ ap (λ r. first_of r none) (plain_name c s rest w words ends line))
