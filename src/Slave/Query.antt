-- ===== src/Slave/Query.antt =====
-- Slave.cpp: `checkAlterOrCreateQuery`, its regular expression, and how `std::regex_match` tries it.
use libslave.Common.{
  ℕ, ◌+◌, ◌-◌, Bool, not, ◌&&◌, ◌||◌, ◌==◌, leb, Bytes, [], ◌∷◌, Option, none, some, if◌then◌else◌,
  codes, length, take,
}
use libslave.Clib.{is_digit, is_space}

-- What the expression uses of the ECMAScript syntax; there is one group that captures.
pub data Regex : Type 0 where
  one : (ℕ → Bool) → Regex
  -- As many as there are, then fewer.
  many : (ℕ → Bool) → Regex
  seq alt : Regex → Regex → Regex
  optional group : Regex → Regex
  empty at_end : Regex

abbrev pub first_of : Option Bytes → Option Bytes → Option Bytes
first_of none other = other
first_of (some s) other = some s

-- How the match goes on from a rest of the text, with what the group holds.
abbrev pub Then : Type 0
Then = Bytes → Bytes → Option Bytes

unfoldable pub run_many : (ℕ → Bool) → Then → Bytes → Bytes → Option Bytes
run_many p k [] held = k [] held
run_many p k (c ∷ s) held =
    let longer = run_many p k s held in
    if p c then first_of longer (k (c ∷ s) held) else k (c ∷ s) held

abbrev pub run_one : (ℕ → Bool) → Then → Bytes → Bytes → Option Bytes
run_one p k [] held = none
run_one p k (c ∷ s) held = if p c then k s held else none

abbrev pub run_end : Then → Bytes → Bytes → Option Bytes
run_end k [] held = k [] held
run_end k (c ∷ s) held = none

-- The group's text is what stands before the rest.
abbrev pub before : Bytes → Bytes → Bytes
before s rest = take (length s - length rest) s

unfoldable pub run_regex : Regex → Then → Bytes → Bytes → Option Bytes
unfolding run_many
run_regex (one p) k s held = run_one p k s held
run_regex (many p) k s held = run_many p k s held
run_regex (seq a b) k s held = run_regex a (run_regex b k) s held
run_regex (alt a b) k s held = first_of (run_regex a k s held) (run_regex b k s held)
run_regex (optional a) k s held = first_of (run_regex a k s held) (k s held)
run_regex (group a) k s held = run_regex a (λ rest _. k rest (before s rest)) s held
run_regex empty k s held = k s held
run_regex at_end k s held = run_end k s held

-- The whole text matches.
abbrev pub whole : Then
whole [] held = some held
whole (c ∷ s) held = none

unfoldable pub regex_match : Regex → Bytes → Option Bytes
unfolding run_regex
regex_match r s = run_regex r whole s []

abbrev is_letter : ℕ → Bool
is_letter c = (leb b'a' c && leb c b'z') || (leb b'A' c && leb c b'Z')

-- `\w`
abbrev pub is_word : ℕ → Bool
is_word c = is_letter c || (is_digit c || c == b'_')

abbrev to_lower : ℕ → ℕ
to_lower c = if leb b'A' c && leb c b'Z' then c + 32 else c

-- `icase`
abbrev pub ignoring_case : ℕ → ℕ → Bool
ignoring_case c d = to_lower c == to_lower d

abbrev pub letters : Bytes → Regex → Regex
letters [] r = r
letters (c ∷ s) r = seq (one (ignoring_case c)) (letters s r)

-- `p+`
abbrev pub plus : (ℕ → Bool) → Regex
plus p = seq (one p) (many p)

abbrev pub quote : Regex
quote = optional (one (λ c. c == b'`'))

-- `.`
abbrev pub is_any : ℕ → Bool
is_any c = not (c == 10 || c == 13)

-- `[^\w\.`]`
abbrev pub is_other : ℕ → Bool
is_other c = not (is_word c || (c == b'.' || c == b'`'))

abbrev pub spaces : Regex
spaces = plus is_space

-- `alter\s+table|create\s+table(?:\s+if\s+not\s+exists)?`
abbrev pub statement : Regex
statement = alt (letters (codes "alter") (seq spaces (letters (codes "table") empty))) (
    letters (codes "create") (
      seq spaces (
        letters (codes "table") (
          optional (
            seq spaces (
              letters (codes "if") (
                seq spaces
                  (letters (codes "not") (seq spaces (letters (codes "exists") empty))))))))))

-- (?:`?\w+`?\.)?
abbrev pub database : Regex
database = optional (seq quote (seq (plus is_word) (seq quote (one (λ c. c == b'.')))))

-- `?(?:[^\w\.`].*$|$)
abbrev pub behind_name : Regex
behind_name = seq quote (alt (seq (one is_other) (seq (many is_any) at_end)) at_end)

-- `?(\w+)
abbrev pub table : Regex
table = seq quote (seq (group (plus is_word)) behind_name)

abbrev pub query_regex : Regex
query_regex = seq (many is_space) (seq statement (seq spaces (seq database table)))

abbrev pub one_line : Bytes → Bytes
one_line [] = []
one_line (c ∷ s) = (if c == 10 then b' ' else c) ∷ one_line s

abbrev pub or_none : Option Bytes → Bytes
or_none none = []
or_none (some name) = name

unfoldable pub check_alter_or_create_query : Bytes → Bytes
unfolding regex_match
check_alter_or_create_query str = or_none (regex_match query_regex (one_line str))
